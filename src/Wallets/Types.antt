-- ===== src/Wallets/Types.antt =====
-- The rows of crm-backend/src/modules/wallets and the interface of the custody provider
-- (crm-backend/src/modules/blockchain/custody/custody.interface.ts). Balances are whole millionths of
-- a USDC, the scale of their column.
use crm_with_blockchain_rag.Base.{Bool, Option, String, false, true, ℕ, ◌≡◌}
use crm_with_blockchain_rag.Prisma.{Table}
use crm_with_blockchain_rag.Ledger.{Chain, LedgerAccount, LedgerError, Books}

pub data WalletType : Type 0 where
  tenant user treasury escrow : WalletType

abbrev pub is_tenant : WalletType → Bool
is_tenant tenant = true
is_tenant _ = false

pub data WalletStatus : Type 0 where
  active suspended archived : WalletStatus

abbrev pub is_active : WalletStatus → Bool
is_active active = true
is_active _ = false

pub record Wallet : Type 0 where
  pub id : String
  pub tenant_id : String
  pub type : WalletType
  pub status : WalletStatus
  pub chain : Chain
  pub address : String
  pub custody_id : Option String
  pub custody_provider : String
  pub balance_usdc : ℕ
  pub balance_synced_at : Option ℕ
  pub label : Option String

-- What the decimal library reads from a text: a number with a sign, its digits and the number of
-- decimal places, or one of its special values.
pub data Decimal : Type 0 where
  finite : Bool → ℕ → ℕ → Decimal
  infinite : Bool → Decimal
  not_a_number : Decimal

-- An amount in atomic units as the text of it reads.
pub data Raw : Type 0 where
  units : ℕ → Raw
  infinity_text nan_text : Raw

pub record GenerateParams : Type 0 where
  pub tenant_id : String
  pub chain : Chain
  pub label : String

pub record CustodyWallet : Type 0 where
  pub address : String
  pub custody_id : String

pub record CustodyTransferParams : Type 0 where
  pub from_custody_id : String
  pub to_address : String
  pub amount_raw : Raw
  pub chain : Chain
  pub idempotency_key : String
  pub token_address : String

pub record CustodyTransferResult : Type 0 where
  pub tx_hash : String
  pub submitted : Bool
  pub custody_tx_id : Option String

-- The custody provider, with the state that its calls leave; `none` where a call rejects.
pub record Custody : Type 1 where
  pub State : Type 0
  pub generate_wallet : GenerateParams → State → Option (CustodyWallet × State)
  pub get_balance : String → Chain → String → State → Option ℕ
  pub transfer : CustodyTransferParams → State → Option (CustodyTransferResult × State)

-- The tables behind the service, the provider and the decimal library's reading of a text.
pub record WalletClient : Type 1 where
  pub wallet : Table Wallet
  pub account : Table LedgerAccount
  pub custody : Custody
  pub parse_decimal : String → Option Decimal
  pub wallet_keyed : (w : Wallet) → wallet.key w ≡ w.id
  pub account_keyed : (a : LedgerAccount) → account.key a ≡ a.id

pub record WalletDb (c : WalletClient) : Type 0 where
  pub wallets : c.wallet.State
  pub books : Books c.account
  pub custody : c.custody.State

pub data WalletError : Type 0 where
  not_found cannot_withdraw invalid_decimal not_positive insufficient_balance : WalletError
  no_custody_id custody_failed record_missing constraint_violation : WalletError
  ledger_failed : LedgerError → WalletError
