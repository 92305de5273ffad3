-- ===== src/Futures/Contracts/Lifecycle.antt =====
-- The life of a contract through the calls of its manager (pkg/futures/manager.go).
use little_cex.Prelude.{
  ◌≡◌, ◌⊎◌, inl, inr, ◌∙◌, refl, sym, ap, ℤ, pos, true, ◌||◌, Option, none, some, List, [], ◌∷◌,
  Bytes, ltb_ℤ, leb_ℤ, arith, Bool-cases, Option-cases, int_eq, bytes_eq, nat_eq, pair_eq,
  same_or_not,
}
use little_cex.Store.{Table, IsTable, changed, Only}
use little_cex.Futures.Spec.{
  ContractSpec, ContractStatus, pending, trading, settling, settled, delisted, is_status,
}
use little_cex.Futures.Spec.Validation.{CreateContractRequest, validate_create_request}
use little_cex.Futures.Contracts.{
  ContractError, list_contract, delist_contract, start_settlement, finish_settlement, update_status,
  with_status, create_contract, contract_of, update_leverage, update_contract, overwrite, nonempty,
  status_or, get_contract,
}

-- The statuses that a contract comes to, by the moves that the manager documents.
pub data Leads (a : ContractStatus) : ContractStatus → Type 0 where
  stays : Leads a a
  lists : Leads a pending → Leads a trading
  delists : Leads a trading → Leads a delisted
  settles : Leads a trading → Leads a settling
  finishes : Leads a settling → Leads a settled

Leads-trans : {a b c : ContractStatus} → Leads a b → Leads b c → Leads a c
Leads-trans h stays = h
Leads-trans h (lists k) = lists (Leads-trans h k)
Leads-trans h (delists k) = delists (Leads-trans h k)
Leads-trans h (settles k) = settles (Leads-trans h k)
Leads-trans h (finishes k) = finishes (Leads-trans h k)

-- What becomes of the contract of a symbol: it is created pending, its status moves on, it keeps its
-- symbol, and it does not vanish.
abbrev pub Advanced : Bytes → Option ContractSpec → Option ContractSpec → Type 0
Advanced symbol none none = Unit
Advanced symbol none (some s) = Leads pending s.status × (s.symbol ≡ symbol)
Advanced symbol (some r) none = ⊥
Advanced symbol (some r) (some s) = Leads r.status s.status × (s.symbol ≡ r.symbol)

Advanced-refl : (k : Bytes) (o : Option ContractSpec) → Advanced k o o
Advanced-refl k none = tt
Advanced-refl k (some s) = (stays, refl)

Advanced-trans :
    (k : Bytes) (a b c : Option ContractSpec) → Advanced k a b → Advanced k b c → Advanced k a c
Advanced-trans k none none c g h = h
Advanced-trans k none (some s) none g h = absurd h
Advanced-trans k none (some s) (some r) g h = (Leads-trans g.0 h.0, h.1 ∙ g.1)
Advanced-trans k (some s) none c g h = absurd g
Advanced-trans k (some s) (some r) none g h = absurd h
Advanced-trans k (some s) (some r) (some q) g h = (Leads-trans g.0 h.0, h.1 ∙ g.1)

nonempty_same : {A : Type 0} (l : List A) → nonempty l l ≡ l
nonempty_same [] = refl
nonempty_same (x ∷ l) = refl

is_status-eq : (a b : ContractStatus) → is_status a b ≡ true → a ≡ b
is_status-eq pending b h = ground arith
is_status-eq trading b h = ground arith
is_status-eq settling b h = ground arith
is_status-eq settled b h = ground arith
is_status-eq delisted b h = ground arith

status_or_same : (a : ContractStatus) → status_or a a ≡ a
status_or_same pending = refl
status_or_same trading = refl
status_or_same settling = refl
status_or_same settled = refl
status_or_same delisted = refl

-- `INSERT` of a row whose key is unique: it fails and changes nothing, or there was no row.
pub record IsInsert {Db : Type 0} (table : Table Bytes ContractSpec Db)
    (create : ContractSpec → Db → Option ContractError × Db) : Type 0 where
  pub create_lem :
      (s : ContractSpec) (d : Db)
      → (table.row s.symbol (create s d).1 ≡ table.row s.symbol d)
        ⊎ (table.row s.symbol d ≡ none) × (table.row s.symbol (create s d).1 ≡ some s)
  pub create_only : (s : ContractSpec) (d : Db) → Only table s.symbol d (create s d).1

module _ {Db : Type 0} (table : Table Bytes ContractSpec Db)
    (insert_row : ContractSpec → Db → Option ContractError × Db) where
  -- One call of the manager that writes, whatever it answers.
  pub data Step (a : Db) : Db → Type 0 where
    create :
        (req : CreateContractRequest) (now : ℤ)
        → Step a (create_contract table insert_row req now a).1
    list : (symbol : Bytes) (now : ℤ) → Step a (list_contract table symbol now a).1
    delist : (symbol : Bytes) (now : ℤ) → Step a (delist_contract table symbol now a).1
    start : (symbol : Bytes) (now : ℤ) → Step a (start_settlement table symbol now a).1
    finish : (symbol : Bytes) (now : ℤ) → Step a (finish_settlement table symbol now a).1
    set_leverage :
        (symbol : Bytes) (max_leverage now : ℤ)
        → Step a (update_leverage table symbol max_leverage now a).1

  pub data Reach (a : Db) : Db → Type 0 where
    here : Reach a a
    next : {b c : Db} → Reach a b → Step b c → Reach a c

  module _ (law : IsTable table) (inserts : IsInsert table insert_row) where
    same-Advanced : (k : Bytes) (a b : Option ContractSpec) → b ≡ a → Advanced k a b
    same-Advanced k a b e = rw e (Advanced-refl k a)

    changed-Advanced :
        (k : Bytes) (from to : ContractStatus) (now : ℤ) (o : Option ContractSpec)
        → Leads from to
        → Advanced k o (changed (λ s. is_status s.status from) (with_status to now) o)
    changed-Advanced k from to now none h = tt
    changed-Advanced k from to now (some s) h = elim (Bool-cases (is_status s.status from)) [
      | inl t ↦ rw (t, is_status-eq s.status from t) (h, refl)
      | inr t ↦ rw t (stays, refl)
    ]

    update-Advanced :
        (symbol : Bytes) (from to : ContractStatus) (now : ℤ) (d : Db) (j : Bytes)
        → Leads from to
        → Advanced j (table.row j d) (table.row j (update_status table symbol from to now d).1)
    unfolding update_status
    update-Advanced symbol from to now d j h = elim (same_or_not j symbol) [
      | inl same ↦
          rw same
            (elim (law.update_lem symbol (λ s. is_status s.status from) (with_status to now) d) [
              | inl (_, e) ↦ same-Advanced _ _ _ e
              | inr (_, e) ↦ rw e (changed-Advanced symbol from to now (table.row symbol d) h)
            ])
      | inr other ↦ same-Advanced _ _ _ (law.update_only symbol _ _ d j other)
    ]

    created-Advanced :
        (s : ContractSpec) (d : Db) (j : Bytes)
        → s.status ≡ pending
        → Advanced j (table.row j d) (table.row j (insert_row s d).1)
    created-Advanced s d j p = elim (same_or_not j s.symbol) [
      | inl same ↦ rw same (elim (inserts.create_lem s d) [
        | inl e ↦ same-Advanced _ _ _ e
        | inr (n, e) ↦ rw (n, e, p) (stays, refl)
      ])
      | inr other ↦ same-Advanced _ _ _ (inserts.create_only s d j other)
    ]

    create-Advanced :
        (req : CreateContractRequest) (now : ℤ) (d : Db) (j : Bytes)
        → Advanced j (table.row j d) (table.row j (create_contract table insert_row req now d).1)
    unfolding create_contract contract_of
    create-Advanced req now d j = elim (Option-cases (validate_create_request req).0) [
      | inl e ↦
          rw (e, create_contract)
            (created-Advanced (contract_of (validate_create_request req).1 now) d j refl)
      | inr (err, e) ↦ rw (e, create_contract) (Advanced-refl j (table.row j d))
    ]

    -- The row of a symbol has that symbol.
    abbrev pub IsKeyed : Db → Type 0
    IsKeyed d = (k : Bytes) (s : ContractSpec) → table.row k d ≡ some s → s.symbol ≡ k

    keyed_still :
        (k : Bytes) (a b : Option ContractSpec)
        → ((s : ContractSpec) → a ≡ some s → s.symbol ≡ k)
        → Advanced k a b
        → (s : ContractSpec) → b ≡ some s
        → s.symbol ≡ k
    keyed_still k none none h g s e = absurd (cc)
    keyed_still k none (some r) h g s e = ap symbol_in (sym e) ∙ g.1
      where
        symbol_in : Option ContractSpec → Bytes
        symbol_in none = []
        symbol_in (some q) = q.symbol
    keyed_still k (some r) none h g s e = absurd g
    keyed_still k (some r) (some q) h g s e = ap symbol_in (sym e) ∙ g.1 ∙ h r refl
      where
        symbol_in : Option ContractSpec → Bytes
        symbol_in none = []
        symbol_in (some x) = x.symbol

    overwritten-Advanced :
        (s : ContractSpec) (now : ℤ) (d : Db) (r : ContractSpec) (j : Bytes)
        → table.row s.symbol d ≡ some r
        → r.status ≡ s.status
        → r.symbol ≡ s.symbol
        → Advanced j (table.row j d) (table.row j (update_contract table s now d).1)
    unfolding update_contract
    overwritten-Advanced s now d r j at same_status same_symbol = elim (same_or_not j s.symbol) [
      | inl same ↦
          rw same
            (elim (law.update_lem s.symbol (λ _. true) (overwrite (record s { updated_at = now }))
              d) [
                | inl (_, e) ↦ same-Advanced _ _ _ e
                | inr (_, e) ↦
                    rw (e, at, same_status, same_symbol)
                      (rw (status_or_same s.status) stays, nonempty_same s.symbol)
              ])
      | inr other ↦ same-Advanced _ _ _ (law.update_only s.symbol _ _ d j other)
    ]

    leverage-Advanced :
        (symbol : Bytes) (max_leverage now : ℤ) (d : Db) (j : Bytes)
        → IsKeyed d
        → Advanced j
            (table.row j d)
            (table.row j (update_leverage table symbol max_leverage now d).1)
    unfolding update_leverage get_contract
    leverage-Advanced symbol lev now d j keyed = elim (law.select_lem symbol d) [
      | inl e ↦ rw (e, update_leverage) (Advanced-refl j (table.row j d))
      | inr e ↦ elim (Option-cases (table.row symbol d)) [
        | inl n ↦ rw (e, n, update_leverage) (Advanced-refl j (table.row j d))
        | inr (s, at) ↦ elim (Bool-cases (leb_ℤ lev (pos 0) || ltb_ℤ (pos 200) lev)) [
          | inl bad ↦ rw (e, at, bad, update_leverage) (Advanced-refl j (table.row j d))
          | inr good ↦
              rw (e, at, good, update_leverage)
                (overwritten-Advanced _ now d s j
                  (ap (λ (k : Bytes). table.row k d) (keyed symbol s at) ∙ at) refl refl)
        ]
      ]
    ]

    step-Advanced :
        {a b : Db} (j : Bytes) → IsKeyed a → Step a b → Advanced j (table.row j a) (table.row j b)
    unfolding list_contract delist_contract start_settlement finish_settlement
    step-Advanced {a} j keyed (create req now) = create-Advanced req now a j
    step-Advanced {a} j keyed (list s now) = update-Advanced s pending trading now a j (lists stays)
    step-Advanced {a} j keyed (delist s now) =
        update-Advanced s trading delisted now a j (delists stays)
    step-Advanced {a} j keyed (start s now) =
        update-Advanced s trading settling now a j (settles stays)
    step-Advanced {a} j keyed (finish s now) =
        update-Advanced s settling settled now a j (finishes stays)
    step-Advanced {a} j keyed (set_leverage s lev now) = leverage-Advanced s lev now a j keyed

    -- Along any sequence of the manager's calls that write, whether they succeed or fail, in a table
    -- where inserting a symbol that is there changes nothing and each row is found by its own symbol,
    -- a contract does not vanish and keeps its symbol, and its status only moves from pending to
    -- trading, from trading to settling or delisted, and from settling to settled; one that was not
    -- there begins as pending.
    pub Reach-Advanced :
        {a b : Db} (j : Bytes) → IsKeyed a → Reach a b → Advanced j (table.row j a) (table.row j b)
    Reach-Advanced {a} j keyed here = Advanced-refl j (table.row j a)
    Reach-Advanced {a} j keyed (next {b} {c} r st) =
        Advanced-trans j (table.row j a) (table.row j b) (table.row j c) (Reach-Advanced j keyed r)
          (step-Advanced j
            (λ k.
              keyed_still k (table.row k a) (table.row k b) (keyed k) (Reach-Advanced k keyed r))
            st)
