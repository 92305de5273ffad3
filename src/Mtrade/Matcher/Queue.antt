-- ===== src/Mtrade/Matcher/Queue.antt =====
-- What a level promises: its orders are served in their order, as far as the taker's quantity
-- goes. An order here is a pointer, and `room` says what each has left.
use little_cex.Prelude.{
  ℕ, ◌+◌, ◌-◌, ◌≤◌, ◌<◌, ◌≡◌, ◌≢◌, refl, List, [], ◌∷◌, if◌then◌else◌, nat_beq, leb, arith,
}

module _ {A : Type 0} where
  abbrev pub All : (A → Type 0) → List A → Type 0
  All P [] = Unit {0}
  All P (x ∷ xs) = P x × All P xs

  pub All-impl : {P Q : A → Type 0} → ((x : A) → P x → Q x) → (xs : List A) → All P xs → All Q xs
  All-impl f [] h = tt
  All-impl f (x ∷ xs) h = (f x h.0, All-impl f xs h.1)

-- No two of the pointers are the same.
abbrev pub Distinct : List ℕ → Type 0
Distinct [] = Unit {0}
Distinct (p ∷ ps) = All (λ (q : ℕ). p ≢ q) ps × Distinct ps

-- The fills, each an order and an amount, and the orders that are left.
unfoldable pub serve : ℕ → (ℕ → ℕ) → List ℕ → List (ℕ × ℕ) × List ℕ
serve want room [] = ([], [])
serve want room (p ∷ ps) =
    if nat_beq want 0
    then ([], p ∷ ps)
    else if leb (room p) want
    then ((p, room p) ∷ (serve (want - room p) room ps).0, (serve (want - room p) room ps).1)
    else ((p, want) ∷ [], p ∷ ps)

abbrev pub taken : List (ℕ × ℕ) → ℕ
taken [] = 0
taken ((_, k) ∷ fs) = k + taken fs

-- What a list of fills gives one order.
abbrev pub given : ℕ → List (ℕ × ℕ) → ℕ
given r [] = 0
given r ((p, k) ∷ fs) = (if nat_beq r p then k else 0) + given r fs

abbrev pub room_in : (ℕ → ℕ) → List ℕ → ℕ
room_in room [] = 0
room_in room (p ∷ ps) = room p + room_in room ps

pub serve-cong :
    (want : ℕ) (f g : ℕ → ℕ) (ps : List ℕ)
    → All (λ (p : ℕ). f p ≡ g p) ps
    → serve want f ps ≡ serve want g ps
unfolding serve
serve-cong want f g [] h = refl
serve-cong want f g (p ∷ ps) h = rw (h.0, serve-cong (want - g p) f g ps h.1) refl

pub serve_nothing : (room : ℕ → ℕ) (ps : List ℕ) → serve 0 room ps ≡ ([], ps)
unfolding serve
serve_nothing room [] = refl
serve_nothing room (p ∷ ps) = refl

pub serve_none : (want : ℕ) (room : ℕ → ℕ) → serve want room [] ≡ ([], [])
unfolding serve
serve_none want room = refl

pub serve_whole :
    (want : ℕ) (room : ℕ → ℕ) (p : ℕ) (ps : List ℕ)
    → 0 < want
    → room p ≤ want
    → serve want room (p ∷ ps)
      ≡ ((p, room p) ∷ (serve (want - room p) room ps).0, (serve (want - room p) room ps).1)
unfolding serve
serve_whole want room p ps h k = ground arith

pub serve_part :
    (want : ℕ) (room : ℕ → ℕ) (p : ℕ) (ps : List ℕ)
    → 0 < want
    → want < room p
    → serve want room (p ∷ ps) ≡ ((p, want) ∷ [], p ∷ ps)
unfolding serve
serve_part want room p ps h k = ground arith

-- The taker gets what it wants, or all there is.
pub taken-serve :
    (want : ℕ) (room : ℕ → ℕ) (ps : List ℕ)
    → taken (serve want room ps).0 ≡ (if leb want (room_in room ps) then want else room_in room ps)
unfolding serve
taken-serve want room [] = ground arith
taken-serve want room (p ∷ ps) = ground (arith, taken-serve (want - room p) room ps)

-- Who is left has been behind everyone who is gone: the rest is a tail of the queue, and only all
-- of it is gone unless the taker is satisfied.
pub serve-done :
    (want : ℕ) (room : ℕ → ℕ) (ps : List ℕ)
    → taken (serve want room ps).0 < want
    → (serve want room ps).1 ≡ []
unfolding serve
serve-done want room [] h = refl
serve-done want room (p ∷ ps) h = ground (arith, serve-done (want - room p) room ps)
