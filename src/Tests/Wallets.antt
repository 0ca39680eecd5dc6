-- ===== src/Tests/Wallets.antt =====
-- crm-backend/src/modules/wallets/wallets.service.ts at concrete inputs.

use crm_with_blockchain_rag.Base.{
  Option, String, [], false, if◌then◌else◌, none, ok, refl, some, true, ℕ, ◌+◌, ◌===◌, ◌∷◌, ◌≡◌,
}
use crm_with_blockchain_rag.Prisma.Memory.Instance.{memory}
use crm_with_blockchain_rag.Tenancy.{all_operations, current_tenant}
use crm_with_blockchain_rag.Ledger.{polygon}
use crm_with_blockchain_rag.Wallets.Types.{
  tenant, active, Wallet, Decimal, finite, not_a_number, CustodyTransferResult, Custody,
  WalletClient, WalletDb,
}
use crm_with_blockchain_rag.Wallets.Service.{
  WithdrawParams, lte_zero, balance_lt, amount_raw, find_wallet, sync_balance, withdraw,
}
use crm_with_blockchain_rag.Wallets.Service.Withdrawals.{Withdrawn, withdraw_lem}
use crm_with_blockchain_rag.Wallets.Service.Balances.{}
use crm_with_blockchain_rag.Tests.Rail.{request}

-- A provider that submits every transfer and reports a balance of 7 USDC; its state counts its calls.
abbrev provider : Custody
provider = record {
  State = ℕ;
  generate_wallet = λ p n. some (record { address = "0xcd"; custody_id = "vault" }, n + 1);
  get_balance = λ k chain token n. some 7_000_000;
  transfer =
      λ p n. some (record { tx_hash = "0x1"; submitted = true; custody_tx_id = none }, n + 1);
}

abbrev read_amount : String → Option Decimal
read_amount t =
    if t === "2.5"
    then some (finite false 25 1)
    else if t === "0"
    then some (finite false 0 0)
    else if t === "NaN"
    then some not_a_number
    else none

abbrev pub tables : WalletClient
tables = record {
  wallet = memory (λ w. w.id);
  account = memory (λ a. a.id);
  custody = provider;
  parse_decimal = read_amount;
  wallet_keyed = λ w. refl;
  account_keyed = λ a. refl;
}

abbrev wallet : Wallet
wallet = record {
  id = "w1";
  tenant_id = "t1";
  type = tenant;
  status = active;
  chain = polygon;
  address = "0xab";
  custody_id = some "vault";
  custody_provider = "local";
  balance_usdc = 3_000_000;
  balance_synced_at = none;
  label = none;
}

abbrev pub start : WalletDb tables
start = record {
  wallets = record { rows = wallet ∷ []; supply = [] };
  books = record { accounts = record { rows = []; supply = [] }; entries = [] };
  custody = 0;
}

abbrev of_amount : String → WithdrawParams
of_amount t = record { to_address = "0xef"; amount_usdc = t; idempotency_key = "k" }

abbrev sent : CustodyTransferResult
sent = record { tx_hash = "0x1"; submitted = true; custody_tx_id = none }

abbrev after : WalletDb tables
after = record start { custody = 1 }

abbrev synced : WalletDb tables
synced = (sync_balance tables request "w1" "t1" start).1

withdraw_runs : withdraw tables request "w1" "t1" (of_amount "2.5") start ≡ (ok sent, after)
unfolding withdraw find_wallet lte_zero balance_lt amount_raw all_operations current_tenant
withdraw_runs = refl

withdraw_lem_example : Withdrawn tables request "w1" "t1" (of_amount "2.5") start after sent
withdraw_lem_example =
    withdraw_lem tables request "w1" "t1" (of_amount "2.5") start after sent withdraw_runs
