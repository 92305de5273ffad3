-- ===== src/Mtrade/Book/Cancel.antt =====
-- `CancelOrder` takes the order out of its queue.
use little_cex.Prelude.{
  ℕ, ℤ, ◌≡◌, refl, ap, ap₂, ◌∙◌, sym, subst, true, Option, none, some, List, [], ◌∷◌, if◌then◌else◌,
  Bool-cases, inl, inr, eqb_ℤ, int_eq, lookup, lookup-erase_self, arith, length,
}
use little_cex.Mtrade.Order.{Side}
use little_cex.Mtrade.Level.{RingPriceLevel, remove_order, is_empty, has_id}
use little_cex.Mtrade.Level.Ring.{IsRing, contents}
use little_cex.Mtrade.Level.Search.{drop_first, remove_order-contents}
use little_cex.Mtrade.Level.Front.{length-contents}
use little_cex.Mtrade.Index.{PriceIndex}
use little_cex.Mtrade.Book.{Book, side_index, withdraw_order, cancel_order}
use little_cex.Mtrade.Book.Queues.{
  orders_in, IsRingIn, IsBook, queue_at, is_place_of, find-keep_level, find_side, side_index_kept,
}
use little_cex.Mtrade.Book.Add.{place_of}

-- A level kept only if it is not empty.
abbrev kept_level : RingPriceLevel → Option RingPriceLevel
kept_level level = if is_empty level then none else some level

no_orders : (xs : List (Option ℕ)) → length xs ≡ 0 → xs ≡ []
no_orders [] h = refl
no_orders (x ∷ xs) h = absurd (omega arith)

contents_empty : (level : RingPriceLevel) → is_empty level ≡ true → contents level ≡ []
unfolding is_empty
contents_empty level e = no_orders (contents level) (ground (arith, length-contents level))

orders_in-kept_level : (level : RingPriceLevel) → orders_in (kept_level level) ≡ contents level
orders_in-kept_level level = elim (Bool-cases (is_empty level)) [
  | inl e ↦ rw e (sym (contents_empty level e))
  | inr e ↦ rw e refl
]

kept_level-IsRingIn : (level : RingPriceLevel) → IsRing level → IsRingIn (kept_level level)
kept_level-IsRingIn level v = elim (Bool-cases (is_empty level)) [
  | inl e ↦ rw e tt
  | inr e ↦ rw e v
]

module _ {P : PriceIndex} where
  -- The order found at `id` was withdrawn from the first place in its queue with that identifier,
  -- and from no other queue.
  abbrev pub IsWithdrawn : ℤ → ℕ → Book P → Book P → Type 0
  IsWithdrawn id p b b' =
      IsBook b'
      × ((s : Side) (price : ℤ)
          → queue_at b' s price ≡ (
              if is_place_of (b.heap p) s price
              then drop_first (has_id b.heap id) (queue_at b s price)
              else queue_at b s price))
      × (lookup id b'.order_index ≡ none)

  module _ (id : ℤ) (p : ℕ) (b : Book P) (v : IsBook b) (level : RingPriceLevel)
      (there : P.find (b.heap p).price (side_index (b.heap p).side b) ≡ some level) where
    abbrev rest : RingPriceLevel
    rest = (remove_order b.heap id level).1

    find-withdraw_order :
        (s : Side) (price : ℤ)
        → P.find price (side_index s (withdraw_order id p level b)) ≡ (
            if is_place_of (b.heap p) s price
            then kept_level rest
            else P.find price (side_index s b))
    unfolding withdraw_order
    find-withdraw_order s price =
        ap (P.find price) (side_index_kept {P = P} s _ _ _)
        ∙ find_side {P = P} s (b.heap p).side b _ price (eqb_ℤ price (b.heap p).price)
            (kept_level rest)
            (find-keep_level P price (b.heap p).price level rest (side_index (b.heap p).side b)
              there)

    level-IsRing : IsRing level
    level-IsRing = subst IsRingIn there (v.rings (b.heap p).side (b.heap p).price)

    removed : IsRing rest × (contents rest ≡ drop_first (has_id b.heap id) (contents level))
    removed =
        let (_, ring, kept) = remove_order-contents b.heap id level level-IsRing in (ring, kept)

    here_queue :
        (s : Side) (price : ℤ)
        → is_place_of (b.heap p) s price ≡ true
        → contents level ≡ queue_at b s price
    here_queue s price here =
        let (side, at) = place_of (b.heap p) s price here in
        sym (ap orders_in there) ∙ sym (ap₂ (queue_at b) side at)

    index-withdraw_order : lookup id (withdraw_order id p level b).order_index ≡ none
    unfolding withdraw_order
    index-withdraw_order = lookup-erase_self id b.order_index

    withdraw_order-IsWithdrawn : IsWithdrawn id p b (withdraw_order id p level b)
    withdraw_order-IsWithdrawn = (
      record {
        rings = λ s price.
            subst IsRingIn (sym (find-withdraw_order s price))
              (elim (Bool-cases (is_place_of (b.heap p) s price)) [
                | inl here ↦ rw here (kept_level-IsRingIn rest removed.0)
                | inr other ↦ rw other (v.rings s price)
              ]);
      },
      (λ s price.
          ap orders_in (find-withdraw_order s price)
          ∙ elim (Bool-cases (is_place_of (b.heap p) s price)) [
            | inl here ↦ rw here (
                orders_in-kept_level rest
                ∙ removed.1
                ∙ ap (drop_first (has_id b.heap id)) (here_queue s price here))
            | inr other ↦ rw other refl
          ]),
      index-withdraw_order,
    )

  abbrev found_level : ℤ → ℕ → Book P → Option RingPriceLevel → Option ℕ × Book P
  found_level id p b o = elim o [
    | none ↦ (none, b)
    | some level ↦ (some p, withdraw_order id p level b)
  ]

  cancel_order_found :
      (id : ℤ) (p : ℕ) (b : Book P) (level : RingPriceLevel)
      → lookup id b.order_index ≡ some p
      → P.find (b.heap p).price (side_index (b.heap p).side b) ≡ some level
      → cancel_order id b ≡ (some p, withdraw_order id p level b)
  unfolding cancel_order
  cancel_order_found id p b level known there =
      ap
        (λ (o : Option ℕ). elim o as (λ _. Option ℕ × Book P) [
          | none ↦ (none, b)
          | some q ↦ found_level id q b (P.find (b.heap q).price (side_index (b.heap q).side b))
        ])
        known
      ∙ ap (found_level id p b) there

  -- In a book over any `PriceIndex` (`skip_list_index` is one) whose levels are rings, canceling an
  -- identifier that the book's index has, of an order with a level at its side and price, returns
  -- the order: it takes the first order with the identifier out of the queue there, keeps the
  -- others in their order and every other queue, keeps the levels rings, and forgets the
  -- identifier.
  pub cancel_order-IsWithdrawn :
      (id : ℤ) (p : ℕ) (b : Book P) (level : RingPriceLevel)
      → IsBook b
      → lookup id b.order_index ≡ some p
      → P.find (b.heap p).price (side_index (b.heap p).side b) ≡ some level
      → let (canceled, b') = cancel_order id b in (canceled ≡ some p) × IsWithdrawn id p b b'
  cancel_order-IsWithdrawn id p b level v known there =
      subst (λ (r : Option ℕ × Book P). (r.0 ≡ some p) × IsWithdrawn id p b r.1)
        (sym (cancel_order_found id p b level known there))
        (refl, withdraw_order-IsWithdrawn id p b v level there)
