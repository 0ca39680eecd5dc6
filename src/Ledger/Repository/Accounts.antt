-- ===== src/Ledger/Repository/Accounts.antt =====
-- What the calls of the ledger repository do to the accounts.
use crm_with_blockchain_rag.Base.{
  Option-cases, String, arith, eq_iff, inl, inr, none, ok, some, ◌≡◌, ◌≢◌,
}
use crm_with_blockchain_rag.Prisma.{Table, create-finds, find_first-create, ===_refl}
use crm_with_blockchain_rag.Ledger.Types.{LedgerAccount, Books}
use crm_with_blockchain_rag.Ledger.Repository.{
  AccountInput, has_code, new_account, find_account, upsert_account,
}

module _ (account : Table LedgerAccount) (keyed : (a : LedgerAccount) → account.key a ≡ a.id) where
  -- An account that is found has the tenant and the code that were asked for, and is the row of its
  -- id.
  pub find_account_sound :
      (tenant_id code : String) (s : Books account) (a : LedgerAccount)
      → find_account account tenant_id code s ≡ some a
      → (a.tenant_id ≡ tenant_id) × (a.code ≡ code) × (account.find_unique a.id s.accounts ≡ some a)
  unfolding find_account
  find_account_sound tenant_id code s a e =
      let (p, at) = account.find_first_sound (has_code tenant_id code) s.accounts a e in
      (
        ground (arith, eq_iff a.tenant_id tenant_id),
        ground (arith, eq_iff a.code code),
        rw (keyed a) at at,
      )

  -- Accounts found under two codes are two rows.
  pub find_account_distinct :
      (t c d : String) (s : Books account) (a b : LedgerAccount)
      → find_account account t c s ≡ some a
      → find_account account t d s ≡ some b
      → c ≢ d
      → a.id ≢ b.id
  find_account_distinct t c d s a b ea eb ne same =
      let (_, ca, ra) = find_account_sound t c s a ea in
      let (_, cb, rb) = find_account_sound t d s b eb in ne (cc (ca, cb, ra, rb, same))

  -- An upsert that succeeds leaves an account with its tenant and code.
  pub upsert_account-finds :
      (input : AccountInput) (s s' : Books account) (a : LedgerAccount)
      → upsert_account account input s ≡ (ok a, s')
      → find_account account input.tenant_id input.code s' ≢ none
  unfolding upsert_account
  upsert_account-finds input s s' a e =
      elim (Option-cases (account.find_first (has_code input.tenant_id input.code) s.accounts)) [
        | inr (b, found) ↦ ground arith
        | inl missed ↦ elim (Option-cases (account.create (new_account input) s.accounts)) [
          | inl refused ↦ ground arith
          | inr ((b, t), made) ↦
              let whole =
                account.create_lem (new_account input) s.accounts t b (λ i. keyed _) made in
              let at =
                create-finds account (new_account input) s.accounts t b (λ i. keyed _) made in
              let there =
                account.find_first_complete (has_code input.tenant_id input.code) t (account.key b)
                  b at (ground (arith, whole.0, ===_refl input.tenant_id, ===_refl input.code)) in
              ground arith
        ]
      ]

  -- An upsert loses no account.
  pub upsert_account-keeps :
      (input : AccountInput) (t c : String) (s s' : Books account) (a : LedgerAccount)
      → upsert_account account input s ≡ (ok a, s')
      → find_account account t c s ≢ none
      → find_account account t c s' ≢ none
  unfolding upsert_account
  upsert_account-keeps input t c s s' a e h =
      elim (Option-cases (account.find_first (has_code input.tenant_id input.code) s.accounts)) [
        | inr (b, found) ↦ ground arith
        | inl missed ↦ elim (Option-cases (account.create (new_account input) s.accounts)) [
          | inl refused ↦ ground arith
          | inr ((b, u), made) ↦
              let kept =
                find_first-create account (has_code t c) (new_account input) s.accounts u b
                  (λ i. keyed _) made h in
              ground arith
        ]
      ]
