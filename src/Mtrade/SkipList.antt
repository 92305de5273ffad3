-- ===== src/Mtrade/SkipList.antt =====
-- The skip list that orders the prices of one side of a book (pkg/mtrade/skiplist.go). A node is its
-- price, and the nodes that are linked at a level, from the head on, are a list. What a node links to at
-- a level is what comes behind it in that list; `none` is the head.
pub mod Levels
pub mod Chains
pub mod Edited
pub mod Search
pub mod Sound
pub mod Indexed
use little_cex.Prelude.{
  ℕ, zero, suc, ◌+◌, ◌-◌, ℤ, Bool, true, false, ◌&&◌, Option, none, some, List, [], ◌∷◌, Map,
  if◌then◌else◌, ltb, ltb_ℤ, eqb_ℤ, int_eq, bytes_eq, nat_eq, lookup, insert, erase, take, drop,
  nat_beq, pair_eq,
}
use little_cex.Mtrade.Level.{RingPriceLevel, new_ring_price_level}

-- `draws` are the random numbers still to come, whether each is below SkipListP.
pub record SkipList : Type 0 where
  pub ascending : Bool
  pub chains : ℕ → List ℤ
  pub levels : Map ℤ RingPriceLevel
  pub height : ℕ
  pub count : ℕ
  pub draws : ℕ → Bool

-- `less`
unfoldable pub less : Bool → ℤ → ℤ → Bool
less ascending a b = if ascending then ltb_ℤ a b else ltb_ℤ b a

unfoldable pub new_skip_list : Bool → (ℕ → Bool) → SkipList
new_skip_list ascending draws = record {
  ascending = ascending;
  chains = λ i. [];
  levels = [];
  height = 1;
  count = 0;
  draws = draws;
}

-- A node of height `h` may grow by as many levels as are left below MaxLevel.
abbrev pub climb : ℕ → ℕ → (ℕ → Bool) → ℕ × (ℕ → Bool)
climb zero h draws = (h, λ n. draws (n + 1))
climb (suc left) h draws =
    let taller = climb left (h + 1) (λ n. draws (n + 1)) in
    if draws 0 then taller else (h, λ n. draws (n + 1))

unfoldable pub random_height : (ℕ → Bool) → ℕ × (ℕ → Bool)
random_height draws = climb 31 1 draws

-- What a node links to at the level whose nodes are given.
unfoldable pub linked : Option ℤ → List ℤ → List ℤ
linked none l = l
linked (some c) [] = []
linked (some c) (q ∷ l) = if eqb_ℤ c q then l else linked (some c) l

-- A write of what a node links to.
unfoldable pub relink : Option ℤ → (List ℤ → List ℤ) → List ℤ → List ℤ
relink none f l = f l
relink (some c) f [] = []
relink (some c) f (q ∷ l) = if eqb_ℤ c q then q ∷ f l else q ∷ relink (some c) f l

-- The inner loop of findWithPath: on from `curr`, over what it links to.
unfoldable pub walk : Bool → ℤ → List ℤ → Option ℤ → Option ℤ
walk asc price [] curr = curr
walk asc price (q ∷ l) curr = if less asc q price then walk asc price l (some q) else curr

abbrev pub set_at : {A : Type 0} → ℕ → A → (ℕ → A) → ℕ → A
set_at i x f j = if nat_beq j i then x else f j

-- The outer loop: `n` levels are left, and `path` is what was recorded so far.
unfoldable pub descend :
    Bool → ℤ → (ℕ → List ℤ) → ℕ → Option ℤ → (ℕ → Option ℤ) → Option ℤ × (ℕ → Option ℤ)
descend asc price chains zero curr path = (curr, path)
descend asc price chains (suc n) curr path =
    let curr' = walk asc price (linked curr (chains n)) curr in
    descend asc price chains n curr' (set_at n curr' path)

abbrev pub starts_with : ℤ → List ℤ → Bool
starts_with price [] = false
starts_with price (q ∷ l) = eqb_ℤ q price

-- `findWithPath`: whether the node is there, and the path; levels above the height have the head.
unfoldable pub find_with_path : ℤ → SkipList → Bool × (ℕ → Option ℤ)
find_with_path price s =
    let (curr, path) = descend s.ascending price s.chains s.height none (λ i. none) in
    (starts_with price (linked curr (s.chains 0)), path)

unfoldable pub find : ℤ → SkipList → Option RingPriceLevel
find price s = if (find_with_path price s).0 then lookup price s.levels else none

abbrev pub higher : ℕ → ℕ → ℕ
higher h height = if ltb height h then h else height

unfoldable pub insert_node : ℤ → (ℕ → Option ℤ) → ℕ × (ℕ → Bool) → SkipList → SkipList
insert_node price path (h, draws) s = record s {
  chains = λ i. if ltb i h then relink (path i) (λ l. price ∷ l) (s.chains i) else s.chains i;
  levels = insert price (new_ring_price_level price) s.levels;
  height = higher h s.height;
  count = s.count + 1;
  draws = draws;
}

unfoldable pub insert_price : ℤ → SkipList → SkipList
insert_price price s =
    let (there, path) = find_with_path price s in
    if there then s else insert_node price path (random_height s.draws) s

-- The loop of Delete: `n` levels are left from `i` on, and it ends where the node is not linked.
unfoldable pub unlink_levels : ℕ → ℕ → ℤ → (ℕ → Option ℤ) → (ℕ → List ℤ) → ℕ → List ℤ
unlink_levels zero i price path chains = chains
unlink_levels (suc n) i price path chains =
    let later =
      unlink_levels n (i + 1) price path (set_at i (relink (path i) (drop 1) (chains i)) chains) in
    if starts_with price (linked (path i) (chains i)) then later else chains

abbrev pub is_nil : List ℤ → Bool
is_nil [] = true
is_nil (_ ∷ _) = false

unfoldable pub lowered : ℕ → (ℕ → List ℤ) → ℕ
lowered zero chains = zero
lowered (suc n) chains =
    let lower = lowered n chains in if ltb 0 n && is_nil (chains n) then lower else suc n

unfoldable pub delete_node : ℤ → (ℕ → Option ℤ) → SkipList → SkipList
delete_node price path s =
    let chains = unlink_levels s.height 0 price path s.chains in
    record s {
      chains = chains;
      levels = erase price s.levels;
      height = lowered s.height chains;
      count = s.count - 1;
    }

unfoldable pub delete_price : ℤ → SkipList → SkipList
delete_price price s =
    let (there, path) = find_with_path price s in if there then delete_node price path s else s

-- A write through a node to its level, where there is a node.
unfoldable pub put_level : ℤ → RingPriceLevel → SkipList → SkipList
put_level price level s =
    if (find_with_path price s).0 then record s { levels = insert price level s.levels } else s

abbrev pub first_of_chain : List ℤ → Option ℤ
first_of_chain [] = none
first_of_chain (p ∷ _) = some p

unfoldable pub first_node : SkipList → Option ℤ
first_node s = first_of_chain (s.chains 0)

unfoldable pub get_top_n : ℕ → SkipList → List ℤ
get_top_n n s = take n (s.chains 0)
