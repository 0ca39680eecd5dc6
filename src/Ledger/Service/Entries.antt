-- ===== src/Ledger/Service/Entries.antt =====
-- The entries that a settlement leaves in the books.
use crm_with_blockchain_rag.Base.{
  List, String, ap, arith, if◌then◌else◌, inl, inr, ltb, ok, ◌∙◌, ◌∷◌, ◌≡◌,
}
use crm_with_blockchain_rag.Prisma.{Table}
use crm_with_blockchain_rag.Tenancy.Queries.{Env}
use crm_with_blockchain_rag.Ledger.Types.{Chain, LedgerAccount, LedgerEntry, Books}
use crm_with_blockchain_rag.Ledger.Repository.{AccountInput, owned, upsert_account}
use crm_with_blockchain_rag.Ledger.Service.{
  SettlePaymentInput, Triple, fee_of, gross_entry, fee_entry, asset_input, liability_input,
  revenue_input, ensure_wallet_accounts, settle_payment,
}
use crm_with_blockchain_rag.Ledger.Service.Posting.{post_entries-entries}
use crm_with_blockchain_rag.Ledger.Service.Provisioning.{settle_payment_total}

-- The entry of the gross amount and, where the fee is not zero, that of the fee, in front of others.
abbrev pub settled_entries : Env → SettlePaymentInput → Triple → List LedgerEntry → List LedgerEntry
settled_entries env input t entries =
    if ltb 0 (fee_of input.amount_usdc)
    then owned env (fee_entry input t) ∷ owned env (gross_entry input t) ∷ entries
    else owned env (gross_entry input t) ∷ entries

module _ (account : Table LedgerAccount) (keyed : (a : LedgerAccount) → account.key a ≡ a.id)
    (env : Env) where
  upsert_account-entries :
      (input : AccountInput) (s : Books account)
      → (upsert_account account input s).1.entries ≡ s.entries
  unfolding upsert_account
  upsert_account-entries input s = ground arith

  ensure_wallet_accounts-entries :
      (t w : String) (chain : Chain) (s : Books account)
      → (ensure_wallet_accounts account t w chain s).1.entries ≡ s.entries
  unfolding ensure_wallet_accounts
  ensure_wallet_accounts-entries t w chain s =
      let s₁ = (upsert_account account (asset_input t w chain) s).1 in
      let s₂ = (upsert_account account (liability_input t chain) s₁).1 in
      upsert_account-entries (revenue_input t chain) s₂
      ∙ upsert_account-entries (liability_input t chain) s₁
      ∙ upsert_account-entries (asset_input t w chain) s

  -- A settlement that succeeds has added the entries of the payment, whatever accounts there were.
  pub settle_payment-entries :
      (input : SettlePaymentInput) (s : Books account)
      → (settle_payment account env 2 input s).0 ≡ ok tt
      → (t : Triple) × ((settle_payment account env 2 input s).1.entries
          ≡ settled_entries env input t s.entries)
  settle_payment-entries input s done = elim (settle_payment_total account keyed env input s) [
    | inl (t, found, _, posted) ↦
        (t, ap (λ b. b.entries) posted ∙ post_entries-entries account keyed env input t s)
    | inr rest ↦ elim rest [
      | inl (t, found, _, posted) ↦
          let u =
            (ensure_wallet_accounts account input.tenant_id input.wallet_id input.chain s).1 in
          (
            t,
            ap (λ b. b.entries) posted
                ∙ post_entries-entries account keyed env input t u
                ∙ ap (λ l. settled_entries env input t l)
                    (ensure_wallet_accounts-entries input.tenant_id input.wallet_id input.chain s),
          )
      | inr stopped ↦ cc
    ]
  ]
