-- ===== src/Mtrade/Book/Add.antt =====
-- `AddOrder` puts the order at the end of its queue.
use little_cex.Prelude.{
  ℕ, ℤ, ◌≡◌, refl, ap, ap₂, ◌∙◌, sym, subst, Bool, true, false, Option, none, some, List, [], ◌∷◌,
  ◌++◌, if◌then◌else◌, Bool-cases, inl, inr, eqb_ℤ_iff, int_eq, lookup, lookup-insert_self, arith,
}
use little_cex.Mtrade.Order.{Side, buy, sell, side_beq, Order}
use little_cex.Mtrade.Level.{RingPriceLevel}
use little_cex.Mtrade.Level.Ring.{IsRing, contents, add_order-contents}
use little_cex.Mtrade.Index.{PriceIndex}
use little_cex.Mtrade.Book.{Book, side_index, enter_order, add_order}
use little_cex.Mtrade.Book.Queues.{
  orders_in, IsRingIn, IsBook, queue_at, is_place_of, entered, find-enter_order, level_of-IsRing,
  contents-or_new_level,
}

same_side : (s t : Side) → side_beq s t ≡ true → s ≡ t
same_side buy buy h = refl
same_side sell sell h = refl
same_side buy sell h = absurd (ground arith)
same_side sell buy h = absurd (ground arith)

pub place_of :
    (o : Order) (s : Side) (price : ℤ)
    → is_place_of o s price ≡ true
    → (s ≡ o.side) × (price ≡ o.price)
place_of o s price h = (same_side s o.side (ground arith), ground (arith, eqb_ℤ_iff price o.price))

module _ {P : PriceIndex} where
  entered-contents :
      (p : ℕ) (b : Book P)
      → IsBook b
      → IsRing (entered p b)
        × (contents (entered p b) ≡ queue_at b (b.heap p).side (b.heap p).price ++ (some p ∷ []))
  entered-contents p b v =
      let (ring, queue) =
        add_order-contents b.heap p _ (level_of-IsRing o.price found (v.rings o.side o.price)) in
      (
        ring,
        queue
            ∙ ap (λ (xs : List (Option ℕ)). xs ++ (some p ∷ []))
                (contents-or_new_level o.price found),
      )
    where
      o : Order
      o = b.heap p

      found : Option RingPriceLevel
      found = P.find o.price (side_index o.side b)

  enter_order-IsBook : (p : ℕ) (b : Book P) → IsBook b → IsBook (enter_order p b)
  enter_order-IsBook p b v = record {
    rings = λ s price.
        subst IsRingIn (sym (find-enter_order p b s price))
          (elim (Bool-cases (is_place_of (b.heap p) s price)) [
            | inl here ↦ rw here (entered-contents p b v).0
            | inr other ↦ rw other (v.rings s price)
          ]);
  }

  queue_at-enter_order :
      (p : ℕ) (b : Book P) (s : Side) (price : ℤ)
      → IsBook b
      → queue_at (enter_order p b) s price ≡ (
          if is_place_of (b.heap p) s price
          then queue_at b s price ++ (some p ∷ [])
          else queue_at b s price)
  queue_at-enter_order p b s price v =
      ap orders_in (find-enter_order p b s price)
      ∙ elim (Bool-cases (is_place_of (b.heap p) s price)) [
        | inl here ↦ rw here (
            (entered-contents p b v).1
            ∙ ap (λ (xs : List (Option ℕ)). xs ++ (some p ∷ [])) (here_queue here))
        | inr other ↦ rw other refl
      ]
    where
      here_queue :
          is_place_of (b.heap p) s price ≡ true
          → queue_at b (b.heap p).side (b.heap p).price ≡ queue_at b s price
      here_queue here =
          let (side, at) = place_of (b.heap p) s price here in sym (ap₂ (queue_at b) side at)

  -- The order was added: at the end of the queue at its side and price, and of no other queue.
  abbrev pub IsEntered : ℕ → Book P → Bool × Book P → Type 0
  IsEntered p b (added, b') =
      (added ≡ true)
      × IsBook b'
      × ((s : Side) (price : ℤ)
          → queue_at b' s price ≡ (
              if is_place_of (b.heap p) s price
              then queue_at b s price ++ (some p ∷ [])
              else queue_at b s price))
      × (lookup (b.heap p).id b'.order_index ≡ some p)

  add_order_new :
      (p : ℕ) (b : Book P)
      → lookup (b.heap p).id b.order_index ≡ none
      → add_order p b ≡ (true, enter_order p b)
  unfolding add_order
  add_order_new p b unused =
      ap
        (λ (o : Option ℕ). elim o as (λ _. Bool × Book P) [
          | some _ ↦ (false, b)
          | none ↦ (true, enter_order p b)
        ])
        unused

  index-enter_order :
      (p : ℕ) (b : Book P) → lookup (b.heap p).id (enter_order p b).order_index ≡ some p
  unfolding enter_order
  index-enter_order p b = lookup-insert_self (b.heap p).id p b.order_index

  -- In a book over any `PriceIndex` (`skip_list_index` is one) whose levels are rings, adding an
  -- order whose identifier is new succeeds: it keeps the levels rings, puts the order at the end of
  -- the queue at its side and price, leaves every other queue, and makes the order found by its
  -- identifier.
  pub add_order-IsEntered :
      (p : ℕ) (b : Book P)
      → IsBook b
      → lookup (b.heap p).id b.order_index ≡ none
      → IsEntered p b (add_order p b)
  add_order-IsEntered p b v unused = subst (IsEntered p b) (sym (add_order_new p b unused)) (
    refl,
    enter_order-IsBook p b v,
    (λ s price. queue_at-enter_order p b s price v),
    index-enter_order p b,
  )
