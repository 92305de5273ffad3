-- ===== src/Futures/Tests/Data.antt =====
-- The state that the runs share: a perpetual and a delivery contract, balances and positions.
use little_cex.Prelude.{
  ℕ, ℤ, pos, false, [], ◌∷◌, Bytes, int_eq, bytes_eq, nat_eq, insert, ascii, pair_eq,
}
use little_cex.Store.{Table}
use little_cex.Store.Memory.{Memory, memory_table}
use little_cex.Fund.Balances.{BalanceKey, BalanceRecord, fresh_balance}
use little_cex.Futures.Spec.{ContractSpec, ContractStatus, ContractType}
use little_cex.Futures.Spec.Validation.{CreateContractRequest}
use little_cex.Futures.Position.{Position}

abbrev pub usdt : Bytes
usdt = ascii "USDT"

abbrev pub btc : Bytes
btc = ascii "BTC_USDT"

abbrev pub request : ContractType → CreateContractRequest
request type = record {
  symbol = btc;
  base_currency = ascii "BTC";
  quote_currency = usdt;
  settle_currency = [];
  contract_type = type;
  contract_size = pos 1;
  tick_size = pos 1;
  min_order_qty = pos 1;
  max_order_qty = pos 1000;
  max_position_qty = pos 1000;
  max_leverage = pos 10;
  initial_margin_rate = pos 0;
  maint_margin_rate = pos 0;
  funding_interval = pos 0;
  max_funding_rate = pos 0;
  price_sources = ascii "X" ∷ [];
  expiry_at = pos 1000;
}

abbrev pub contract : ContractType → ContractStatus → ContractSpec
contract type status = record {
  symbol = btc;
  base_currency = ascii "BTC";
  quote_currency = usdt;
  settle_currency = usdt;
  contract_type = type;
  contract_size = pos 1;
  tick_size = pos 1;
  min_order_qty = pos 1;
  max_order_qty = pos 1000;
  max_position_qty = pos 1000;
  max_leverage = pos 10;
  initial_margin_rate = pos 1000;
  maint_margin_rate = pos 500;
  funding_interval = pos 28800;
  max_funding_rate = pos 75;
  price_sources = ascii "X" ∷ [];
  status = status;
  listed_at = pos 0;
  expiry_at = pos 1000;
  created_at = pos 0;
  updated_at = pos 0;
}

abbrev pub Contracts : Type 0
Contracts = Memory Bytes ContractSpec

abbrev pub contracts : Table Bytes ContractSpec Contracts
contracts = memory_table

abbrev pub market : ContractType → ContractStatus → Contracts
market type status = record { content = insert btc (contract type status) []; fails = λ n. false }

abbrev pub Accounts : Type 0
Accounts = Memory BalanceKey BalanceRecord

abbrev pub balances : Table BalanceKey BalanceRecord Accounts
balances = memory_table

-- User 7 has 1000 available.
abbrev pub accounts : Accounts
accounts = record {
  content = insert (pos 7, usdt) (fresh_balance (pos 7) usdt (pos 1000) (pos 0)) [];
  fails = λ n. false;
}

abbrev pub position : ℕ → ℤ → Position
position uid size = record {
  user_id = pos uid;
  symbol = btc;
  size = size;
  entry_price = pos 100;
  margin = pos 50;
  leverage = pos 5;
  realized_pnl = pos 0;
}
