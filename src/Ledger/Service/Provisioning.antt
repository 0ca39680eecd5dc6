-- ===== src/Ledger/Service/Provisioning.antt =====
-- Provisioning the accounts of a wallet, and that a settlement calls itself at most once.
use crm_with_blockchain_rag.Base.{
  Option-cases, Result, String, ap, arith, err, inl, inr, none, ok, refl, some, suc, ℕ, ◌≡◌, ◌≢◌,
  ◌⊎◌,
}
use crm_with_blockchain_rag.Prisma.{Table}
use crm_with_blockchain_rag.Tenancy.Queries.{Env}
use crm_with_blockchain_rag.Ledger.Types.{
  Chain, LedgerAccount, LedgerError, constraint_violation, Books,
}
use crm_with_blockchain_rag.Ledger.Repository.{find_account, upsert_account, AccountInput}
use crm_with_blockchain_rag.Ledger.Repository.Accounts.{upsert_account-finds, upsert_account-keeps}
use crm_with_blockchain_rag.Ledger.Service.{
  SettlePaymentInput, all_of, asset_code, liability_code, revenue_code, asset_input,
  liability_input, revenue_input, ensure_wallet_accounts, find_accounts, settle_payment, Triple,
  post_entries,
}

all_of_ok :
    {A : Type 0} (a l r : Result LedgerError A)
    → all_of a l r ≡ ok tt
    → (x : A) × (y : A) × (z : A) × (a ≡ ok x) × (l ≡ ok y) × (r ≡ ok z)
all_of_ok (ok x) (ok y) (ok z) h = (x, y, z, refl, refl, refl)
all_of_ok (err e) _ _ h = cc
all_of_ok (ok x) (err e) _ h = cc
all_of_ok (ok x) (ok y) (err e) h = cc

module _ (account : Table LedgerAccount) (keyed : (a : LedgerAccount) → account.key a ≡ a.id)
    (env : Env) where
  find_accounts_of :
      (t : String) (c : Chain) (s : Books account)
      → find_account account t (asset_code c) s ≢ none
      → find_account account t (liability_code c) s ≢ none
      → find_account account t (revenue_code c) s ≢ none
      → find_accounts account t c s ≢ none
  unfolding find_accounts
  find_accounts_of t c s ha hl hr = ground arith

  -- After a successful provisioning all three accounts of the chain are found.
  pub ensure_wallet_accounts-finds :
      (t w : String) (c : Chain) (s s' : Books account)
      → ensure_wallet_accounts account t w c s ≡ (ok tt, s')
      → find_accounts account t c s' ≢ none
  unfolding ensure_wallet_accounts
  ensure_wallet_accounts-finds t w c s s' e =
      let (a, s₁) = upsert_account account (asset_input t w c) s in
      let (l, s₂) = upsert_account account (liability_input t c) s₁ in
      let (r, s₃) = upsert_account account (revenue_input t c) s₂ in
      let (x, y, z, ea, el, er) = all_of_ok a l r (ap (λ p. p.0) e) in
      let same : s₃ ≡ s' = ap (λ p. p.1) e in
      let ua : upsert_account account (asset_input t w c) s ≡ (ok x, s₁) = λ i. (ea i, s₁) in
      let ul : upsert_account account (liability_input t c) s₁ ≡ (ok y, s₂) = λ i. (el i, s₂) in
      let ur : upsert_account account (revenue_input t c) s₂ ≡ (ok z, s₃) = λ i. (er i, s₃) in
      let keep₂ = λ (code : String).
        upsert_account-keeps account keyed (liability_input t c) t code s₁ s₂ y ul in
      let keep₃ = λ (code : String).
        upsert_account-keeps account keyed (revenue_input t c) t code s₂ s₃ z ur in
      rw (← same) (
        find_accounts_of t c s₃
          (keep₃ (asset_code c) (
            keep₂ (asset_code c)
              (upsert_account-finds account keyed (asset_input t w c) s s₁ x ua)))
          (keep₃ (liability_code c)
            (upsert_account-finds account keyed (liability_input t c) s₁ s₂ y ul))
          (upsert_account-finds account keyed (revenue_input t c) s₂ s₃ z ur))

  upsert_account-error :
      (input : AccountInput) (s : Books account) (e : LedgerError)
      → (upsert_account account input s).0 ≡ err e
      → e ≡ constraint_violation
  unfolding upsert_account
  upsert_account-error input s e h = ground arith

  ensure_wallet_accounts-error :
      (t w : String) (c : Chain) (s : Books account) (e : LedgerError)
      → (ensure_wallet_accounts account t w c s).0 ≡ err e
      → e ≡ constraint_violation
  unfolding ensure_wallet_accounts
  ensure_wallet_accounts-error t w c s e h =
      let s₁ = (upsert_account account (asset_input t w c) s).1 in
      let s₂ = (upsert_account account (liability_input t c) s₁).1 in
      ground (
        arith,
        upsert_account-error (asset_input t w c) s e,
        upsert_account-error (liability_input t c) s₁ e,
        upsert_account-error (revenue_input t c) s₂ e,
      )

  -- What a settlement may do: post its entries to the accounts of the chain, in the books that it
  -- was given or in those with the missing accounts, or stop at a violated constraint.
  abbrev pub Settles :
      SettlePaymentInput → Books account → Result LedgerError (Unit {0}) × Books account → Type 0
  Settles input u (r, s') =
      (t : Triple) × (find_accounts account input.tenant_id input.chain u ≡ some t)
      × (r ≡ ok tt)
      × (s' ≡ post_entries account env input t u)

  settle_once :
      (n : ℕ) (input : SettlePaymentInput) (s : Books account)
      → find_accounts account input.tenant_id input.chain s ≢ none
      → Settles input s (settle_payment account env (suc n) input s)
  unfolding settle_payment
  settle_once n input s h =
      elim (Option-cases (find_accounts account input.tenant_id input.chain s)) [
        | inl missing ↦ absurd (h missing)
        | inr (t, found) ↦ (t, found, ground arith, ground arith)
      ]

  settle_again :
      (n : ℕ) (input : SettlePaymentInput) (s u : Books account)
      → find_accounts account input.tenant_id input.chain s ≡ none
      → ensure_wallet_accounts account input.tenant_id input.wallet_id input.chain s ≡ (ok tt, u)
      → settle_payment account env (suc n) input s ≡ settle_payment account env n input u
  unfolding settle_payment
  settle_again n input s u missing made = ground arith

  settle_stops :
      (n : ℕ) (input : SettlePaymentInput) (s u : Books account) (e : LedgerError)
      → find_accounts account input.tenant_id input.chain s ≡ none
      → ensure_wallet_accounts account input.tenant_id input.wallet_id input.chain s ≡ (err e, u)
      → settle_payment account env (suc n) input s ≡ (err e, u)
  unfolding settle_payment
  settle_stops n input s u e missing made = ground arith

  -- A settlement calls itself at most once: two calls are enough, and then it has posted its entries
  -- to the accounts of the chain, in the books that it was given or in those that provisioning made
  -- of them, or it has stopped because a missing account could not be created.
  pub settle_payment_total :
      (input : SettlePaymentInput) (s : Books account)
      → Settles input s (settle_payment account env 2 input s)
        ⊎ Settles input
            (ensure_wallet_accounts account input.tenant_id input.wallet_id input.chain s).1
            (settle_payment account env 2 input s)
        ⊎ ((settle_payment account env 2 input s).0 ≡ err constraint_violation)
  settle_payment_total input s =
      elim (Option-cases (find_accounts account input.tenant_id input.chain s)) [
        | inr (t, found) ↦ inl (settle_once 1 input s (λ missing. cc))
        | inl missing ↦
            after missing
              (ensure_wallet_accounts account input.tenant_id input.wallet_id input.chain s) refl
      ]
    where
      after :
          find_accounts account input.tenant_id input.chain s ≡ none
          → (p : Result LedgerError (Unit {0}) × Books account)
          → ensure_wallet_accounts account input.tenant_id input.wallet_id input.chain s ≡ p
          → Settles input s (settle_payment account env 2 input s)
            ⊎ Settles input
                (ensure_wallet_accounts account input.tenant_id input.wallet_id input.chain s).1
                (settle_payment account env 2 input s)
            ⊎ ((settle_payment account env 2 input s).0 ≡ err constraint_violation)
      after missing (ok done, u) made = inr (
          inl (
            rw (settle_again 1 input s u missing made, made)
              (settle_once 0 input u (
                ensure_wallet_accounts-finds input.tenant_id input.wallet_id input.chain s u
                  made))))
      after missing (err e, u) made = inr (
          inr (
            rw (settle_stops 1 input s u e missing made) (
              ap err (
                ensure_wallet_accounts-error input.tenant_id input.wallet_id input.chain s e
                  (ap (λ p. p.0) made)))))
