-- ===== src/Wallets/Service.antt =====
-- crm-backend/src/modules/wallets/wallets.service.ts and wallets.repository.ts.
pub mod Withdrawals
pub mod Provision
pub mod Balances
use Prim.Native.Nat.{◌^◌}
use Prim.Native.String.{slice}
use crm_with_blockchain_rag.Base.{
  Bool, Option, Result, String, err, false, filled, if◌then◌else◌, ltb, none, not, ok, some, ℕ,
  ◌&&◌, ◌*◌, ◌+++◌, ◌+◌, ◌/◌, ◌===◌, ◌==◌, ◌||◌,
}
use crm_with_blockchain_rag.Tenancy.Queries.{Env, passes, row_tenant, tenant_filter}
use crm_with_blockchain_rag.Tenancy.{Operation}
use crm_with_blockchain_rag.Ledger.{Chain, polygon, base, ethereum, chain_eq}
use crm_with_blockchain_rag.Ledger.Service.{ensure_wallet_accounts}
use crm_with_blockchain_rag.Wallets.Types.{
  tenant, is_tenant, active, is_active, Wallet, Decimal, finite, infinite, not_a_number, Raw, units,
  infinity_text, nan_text, GenerateParams, CustodyWallet, CustodyTransferParams,
  CustodyTransferResult, Custody, WalletClient, WalletDb, WalletError, not_found, cannot_withdraw,
  invalid_decimal, not_positive, insufficient_balance, no_custody_id, custody_failed,
  record_missing, constraint_violation, ledger_failed,
}

abbrev pub usdc_addresses : Chain → String
usdc_addresses polygon = "0x3c499c542cEF5E3811e1192ce70d8cC03d5c3359"
usdc_addresses base = "0x833589fCD6eDb6E08f4c7C32D4f71b54bdA02913"
usdc_addresses ethereum = "0xA0b86991c6218b36c1d19D4a2e9Eb0cE3606eB48"

-- `amountDecimal.lte(0)`
unfoldable pub lte_zero : Decimal → Bool
lte_zero (finite negative digits places) = negative || digits == 0
lte_zero (infinite negative) = negative
lte_zero not_a_number = false

-- `balanceUsdc.lt(amountDecimal)`, for a balance in millionths.
unfoldable pub balance_lt : ℕ → Decimal → Bool
balance_lt balance (finite negative digits places) =
    not negative && ltb (balance * 10 ^ places) (digits * 1_000_000)
balance_lt balance (infinite negative) = not negative
balance_lt balance not_a_number = false

-- `amountDecimal.mul('1000000').toFixed(0)` of an amount that is not negative: halves are rounded up.
unfoldable pub amount_raw : Decimal → Raw
amount_raw (finite negative digits places) =
    units ((2 * (digits * 1_000_000) + 10 ^ places) / (2 * 10 ^ places))
amount_raw (infinite negative) = infinity_text
amount_raw not_a_number = nan_text

-- `label ?? …`
abbrev pub custody_label : String → Option String → String
custody_label tenant_id none = "tenant-operating-" +++ slice tenant_id 0 8
custody_label tenant_id (some l) = l

-- The parameters of `withdraw`.
pub record WithdrawParams : Type 0 where
  pub to_address : String
  pub amount_usdc : String
  pub idempotency_key : String

abbrev pub transfer_of : Wallet → String → WithdrawParams → Decimal → CustodyTransferParams
transfer_of w custody_id params amount = record {
  from_custody_id = custody_id;
  to_address = params.to_address;
  amount_raw = amount_raw amount;
  chain = w.chain;
  idempotency_key = params.idempotency_key;
  token_address = usdc_addresses w.chain;
}

-- `updateBalanceCache`
abbrev pub cached : Env → ℕ → Wallet → Wallet
cached env raw w = record w { balance_usdc = raw; balance_synced_at = some env.now }

module _ (c : WalletClient) where
  abbrev pub WalletOutcome : Type 0 → Type 0
  WalletOutcome A = Result WalletError A × WalletDb c

  unfoldable pub find_wallet : Env → String → String → WalletDb c → Option Wallet
  find_wallet env id tenant_id s =
      c.wallet.find_first
        (λ w.
          w.id === id
          && passes (tenant_filter env "Wallet" Operation.find_first (some tenant_id)) w.tenant_id)
        s.wallets

  abbrev pub is_operating : Env → String → Chain → Wallet → Bool
  is_operating env tenant_id chain w =
      passes (tenant_filter env "Wallet" Operation.find_first (some tenant_id)) w.tenant_id
      && is_tenant w.type
      && chain_eq w.chain chain
      && is_active w.status

  unfoldable pub find_tenant_operating_wallet : Env → String → Chain → WalletDb c → Option Wallet
  find_tenant_operating_wallet env tenant_id chain s =
      c.wallet.find_first (is_operating env tenant_id chain) s.wallets

  -- The row that `provisionTenantWallet` creates.
  abbrev pub new_wallet :
      Env → String → Chain → Option String → String → CustodyWallet → String → Wallet
  new_wallet env tenant_id chain label provider g id = record {
    id = id;
    tenant_id = row_tenant env "Wallet" tenant_id;
    type = tenant;
    status = active;
    chain = chain;
    address = g.address;
    custody_id = some g.custody_id;
    custody_provider = provider;
    balance_usdc = 0;
    balance_synced_at = none;
    label = label;
  }

  -- `provider` is the configured name of the custody provider.
  unfoldable pub provision_tenant_wallet :
      Env → String → String → Chain → Option String → WalletDb c → WalletOutcome Wallet
  provision_tenant_wallet env provider tenant_id chain label s =
      elim (find_tenant_operating_wallet env tenant_id chain s) [
        | some existing ↦ (ok existing, s)
        | none ↦
            elim (c.custody.generate_wallet
              (record {
                tenant_id = tenant_id;
                chain = chain;
                label = custody_label tenant_id label;
              })
              s.custody) [
                | none ↦ (err custody_failed, s)
                | some (g, k) ↦
                    elim (c.wallet.create (new_wallet env tenant_id chain label provider g)
                      s.wallets) [
                        | none ↦ (err constraint_violation, record s { custody = k })
                        | some (w, t) ↦
                            let (r, books) =
                              ensure_wallet_accounts c.account tenant_id w.id chain s.books in
                            let s' : WalletDb c = record {
                              wallets = t;
                              books = books;
                              custody = k;
                            } in
                            elim r [ err e ↦ (err (ledger_failed e), s') | ok _ ↦ (ok w, s') ]
                      ]
              ]
      ]

  -- The balance is reported in millionths.
  unfoldable pub sync_balance : Env → String → String → WalletDb c → WalletOutcome ℕ
  sync_balance env id tenant_id s = elim (find_wallet env id tenant_id s) [
    | none ↦ (err not_found, s)
    | some w ↦ elim (filled w.custody_id) [
      | none ↦ (ok w.balance_usdc, s)
      | some k ↦ elim (c.custody.get_balance k w.chain (usdc_addresses w.chain) s.custody) [
        | none ↦ (err custody_failed, s)
        | some raw ↦
            if passes (tenant_filter env "Wallet" Operation.update none) w.tenant_id
            then elim (c.wallet.update id (cached env raw) s.wallets) [
              | none ↦ (err record_missing, s)
              | some (w', t) ↦ (ok raw, record s { wallets = t })
            ]
            else (err record_missing, s)
      ]
    ]
  ]

  unfoldable pub withdraw :
      Env → String → String → WithdrawParams → WalletDb c → WalletOutcome CustodyTransferResult
  withdraw env wallet_id tenant_id params s = elim (find_wallet env wallet_id tenant_id s) [
    | none ↦ (err not_found, s)
    | some w ↦
        if is_active w.status
        then elim (c.parse_decimal params.amount_usdc) [
          | none ↦ (err invalid_decimal, s)
          | some amount ↦
              if lte_zero amount
              then (err not_positive, s)
              else if balance_lt w.balance_usdc amount
              then (err insufficient_balance, s)
              else elim (filled w.custody_id) [
                | none ↦ (err no_custody_id, s)
                | some k ↦ elim (c.custody.transfer (transfer_of w k params amount) s.custody) [
                  | none ↦ (err custody_failed, s)
                  | some (r, k') ↦ (ok r, record s { custody = k' })
                ]
              ]
        ]
        else (err cannot_withdraw, s)
  ]
