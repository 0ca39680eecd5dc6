-- ===== src/Ledger/Repository.antt =====
-- crm-backend/src/modules/ledger/ledger.repository.ts
pub mod Accounts
use crm_with_blockchain_rag.Base.{
  Bool, List, Option, Result, String, [], err, false, keep, none, ok, reverse, some, ℕ, ◌&&◌, ◌+◌,
  ◌===◌, ◌∷◌,
}
use crm_with_blockchain_rag.Prisma.{Table}
use crm_with_blockchain_rag.Tenancy.Queries.{Env, row_tenant}
use crm_with_blockchain_rag.Ledger.Types.{
  Chain, LedgerAccountType, asset, liability, revenue, LedgerAccount, LedgerEntry, Books,
  LedgerError, constraint_violation,
}

-- The input of `upsertAccount`.
pub record AccountInput : Type 0 where
  pub tenant_id : String
  pub wallet_id : Option String
  pub type : LedgerAccountType
  pub name : String
  pub code : String
  pub chain : Chain

abbrev pub has_code : String → String → LedgerAccount → Bool
has_code tenant_id code a = a.tenant_id === tenant_id && a.code === code

-- The row that `upsertAccount` creates under a generated key.
abbrev pub new_account : AccountInput → String → LedgerAccount
new_account input id = record {
  id = id;
  tenant_id = input.tenant_id;
  wallet_id = input.wallet_id;
  type = input.type;
  name = input.name;
  code = input.code;
  chain = input.chain;
  balance = 0;
}

-- `SET balance = balance + amount`
abbrev pub add_balance : ℕ → LedgerAccount → LedgerAccount
add_balance amount a = record a { balance = a.balance + amount }

-- The entry that is stored.
abbrev pub owned : Env → LedgerEntry → LedgerEntry
owned env e = record e { tenant_id = row_tenant env "LedgerEntry" e.tenant_id }

abbrev pub has_id : String → LedgerAccount → Bool
has_id id a = a.id === id

abbrev is_tenant_asset : String → LedgerAccount → Bool
is_tenant_asset tenant_id a = elim (a.type) [
  | asset ↦ a.tenant_id === tenant_id
  | liability ↦ false
  | revenue ↦ false
]

abbrev sum_balances : List LedgerAccount → ℕ
sum_balances [] = 0
sum_balances (a ∷ rest) = a.balance + sum_balances rest

module _ (account : Table LedgerAccount) where
  -- `findUnique` on the pair of tenant and code, which is unique.
  unfoldable pub find_account : String → String → Books account → Option LedgerAccount
  find_account tenant_id code s = account.find_first (has_code tenant_id code) s.accounts

  -- The update of the upsert is empty.
  unfoldable pub upsert_account :
      AccountInput → Books account → Result LedgerError LedgerAccount × Books account
  unfolding find_account
  upsert_account input s = elim (find_account input.tenant_id input.code s) [
    | some a ↦ (ok a, s)
    | none ↦ elim (account.create (new_account input) s.accounts) [
      | none ↦ (err constraint_violation, s)
      | some (a, t) ↦ (ok a, record s { accounts = t })
    ]
  ]

  -- Two raw updates, which match at most one row each, and the new entry, whose tenant the client
  -- replaces by that of the context.
  unfoldable pub write_entry : Env → LedgerEntry → Books account → Books account
  write_entry env input s =
      let debited =
        account.update_many (has_id input.debit_account_id) (add_balance input.amount) s.accounts in
      let credited =
        account.update_many (has_id input.credit_account_id) (add_balance input.amount) debited in
      record s { accounts = credited; entries = owned env input ∷ s.entries }

  -- The entries of a payment, oldest first.
  unfoldable pub get_payment_entries : String → Books account → List LedgerEntry
  get_payment_entries payment_id s = reverse (keep (λ e. e.payment_id === payment_id) s.entries)

  unfoldable pub get_tenant_balance : String → Books account → ℕ
  get_tenant_balance tenant_id s =
      sum_balances (account.find_many (is_tenant_asset tenant_id) s.accounts)
