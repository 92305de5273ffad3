-- ===== src/Futures/Tests/Contracts.antt =====
-- Runs of the checks of a contract and of its life, and of adding to a position.
use little_cex.Prelude.{
  Option, inl, inr, lookup, insert, lookup-insert_self, lookup-insert_ne, Option-cases, [], ◌≡◌,
  refl, pos, false, none, some, arith, quotient, int_eq, bytes_eq, nat_eq, pair_eq,
}
use little_cex.Store.Memory.{memory_table-IsTable}
use little_cex.Futures.Spec.{perpetual}
use little_cex.Futures.Spec.Validation.{
  validate_create_request, IsUsable, validate_create_request-IsUsable,
}
use little_cex.Store.Memory.{memory_table}
use little_cex.Futures.Spec.{ContractSpec}
use little_cex.Futures.Contracts.{
  ContractError, database, create_contract, list_contract, delist_contract, update_leverage,
}
use little_cex.Futures.Contracts.Lifecycle.{
  Reach, here, next, create, list, delist, set_leverage, Advanced, Reach-Advanced, IsInsert,
  IsKeyed,
}
use little_cex.Futures.Position.{Position, update_position, position_add}
use little_cex.Futures.Position.Average.{IsBlended, update_position-IsBlended}
use little_cex.Futures.Tests.Data.{btc, request, contracts, Contracts, position}

passes : (validate_create_request (request perpetual)).0 ≡ none
unfolding validate_create_request quotient
passes = refl

validate_create_request-IsUsable_example : IsUsable (validate_create_request (request perpetual)).1
validate_create_request-IsUsable_example =
    validate_create_request-IsUsable (request perpetual) passes

-- `INSERT`, which the unique key refuses where the symbol is there.
abbrev insert_row : ContractSpec → Contracts → Option ContractError × Contracts
insert_row s d = elim (lookup s.symbol d.content) [
  | some _ ↦ (some database, d)
  | none ↦ (none, record d { content = insert s.symbol s d.content })
]

insert_row-IsInsert : IsInsert contracts insert_row
unfolding memory_table
insert_row-IsInsert = record {
  create_lem = λ s d. elim (Option-cases (lookup s.symbol d.content)) [
    | inl n ↦ inr (n, rw (n, insert_row) (lookup-insert_self s.symbol s d.content))
    | inr (r, e) ↦ inl (rw (e, insert_row) e)
  ];
  create_only = λ s d j other. elim (Option-cases (lookup s.symbol d.content)) [
    | inl n ↦ rw (n, insert_row) (lookup-insert_ne j s.symbol s d.content other)
    | inr (r, e) ↦ rw (e, insert_row) refl
  ];
}

abbrev no_contracts : Contracts
no_contracts = record { content = []; fails = λ n. false }

no_contracts-IsKeyed :
    IsKeyed contracts insert_row memory_table-IsTable insert_row-IsInsert no_contracts
unfolding memory_table lookup
no_contracts-IsKeyed k s e = absurd (cc)

abbrev created : Contracts
created = (create_contract contracts insert_row (request perpetual) (pos 4) no_contracts).1

abbrev listed : Contracts
listed = (list_contract contracts btc (pos 5) created).1

abbrev leveraged : Contracts
leveraged = (update_leverage contracts btc (pos 20) (pos 6) listed).1

life : Reach contracts insert_row no_contracts (delist_contract contracts btc (pos 7) leveraged).1
life =
    next
      (next (next (next here (create (request perpetual) (pos 4))) (list btc (pos 5)))
        (set_leverage btc (pos 20) (pos 6)))
      (delist btc (pos 7))

Reach-Advanced_example :
    Advanced btc
      (contracts.row btc no_contracts)
      (contracts.row btc (delist_contract contracts btc (pos 7) leveraged).1)
Reach-Advanced_example =
    Reach-Advanced contracts insert_row memory_table-IsTable insert_row-IsInsert btc
      no_contracts-IsKeyed life

update_position-IsBlended_example :
    (r : Position) × (update_position (position 7 (pos 3)) (pos 2) (pos 110) (pos 44) (pos 5) false
      ≡ some (r, position_add))
    × IsBlended (position 7 (pos 3)) (pos 2) (pos 44) (pos 100) (pos 110) r
update_position-IsBlended_example =
    update_position-IsBlended (position 7 (pos 3)) (pos 2) (pos 110) (pos 44) (pos 5) 100 110 refl
      (omega arith) (omega arith) (omega arith) (omega arith) (omega arith) (omega arith)
