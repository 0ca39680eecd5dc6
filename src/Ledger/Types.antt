-- ===== src/Ledger/Types.antt =====
-- The rows of the ledger (crm-backend/src/modules/ledger, and the models of the database schema that
-- they are written to), and the state of the ledger's two tables.
use crm_with_blockchain_rag.Base.{Bool, List, Option, String, false, true, ℕ}
use crm_with_blockchain_rag.Prisma.{Table}

-- `SupportedChain`
pub data Chain : Type 0 where
  polygon base ethereum : Chain

abbrev pub chain_eq : Chain → Chain → Bool
chain_eq polygon polygon = true
chain_eq base base = true
chain_eq ethereum ethereum = true
chain_eq _ _ = false

pub data LedgerAccountType : Type 0 where
  asset liability revenue : LedgerAccountType

pub record LedgerAccount : Type 0 where
  pub id : String
  pub tenant_id : String
  pub wallet_id : Option String
  pub type : LedgerAccountType
  pub name : String
  pub code : String
  pub chain : Chain
  pub balance : ℕ

pub record LedgerEntry : Type 0 where
  pub tenant_id : String
  pub debit_account_id : String
  pub credit_account_id : String
  pub amount : ℕ
  pub payment_id : String
  pub reference_type : String
  pub reference_id : String
  pub description : String

-- The table of accounts, and the entries written so far, the newest first.
pub record Books (account : Table LedgerAccount) : Type 0 where
  pub accounts : account.State
  pub entries : List LedgerEntry

pub data LedgerError : Type 0 where
  constraint_violation : LedgerError
  -- The model's own: the calls of `settlePayment` by itself went past the bound.
  out_of_fuel : LedgerError
