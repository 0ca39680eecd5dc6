-- ===== src/Ledger/Service/Posting.antt =====
-- What the entries of a settlement do to the balances.
use crm_with_blockchain_rag.Base.{
  Bool-cases, String, arith, if◌then◌else◌, inl, inr, ltb, refl, some, sym, ℕ, ◌*◌, ◌+◌, ◌<◌, ◌∙◌,
  ◌∷◌, ◌≡◌, ◌≢◌, ◌≤◌,
}
use crm_with_blockchain_rag.Prisma.{Table, ===_refl, ===_ne}
use crm_with_blockchain_rag.Tenancy.Queries.{Env}
use crm_with_blockchain_rag.Ledger.Types.{LedgerAccount, LedgerEntry, Books}
use crm_with_blockchain_rag.Ledger.Repository.{has_id, add_balance, owned, write_entry}
use crm_with_blockchain_rag.Ledger.Service.{
  SettlePaymentInput, Triple, fee_of, gross_entry, fee_entry, post_entries,
}

-- The balance that an entry leaves in an account.
abbrev posted : LedgerEntry → LedgerAccount → LedgerAccount
posted e a =
    let debited = if has_id e.debit_account_id a then add_balance e.amount a else a in
    if has_id e.credit_account_id debited then add_balance e.amount debited else debited

module _ (account : Table LedgerAccount) (keyed : (a : LedgerAccount) → account.key a ≡ a.id)
    (env : Env) where
  add_balance-key :
      (amount : ℕ) (a : LedgerAccount) → account.key (add_balance amount a) ≡ account.key a
  add_balance-key amount a = keyed (add_balance amount a) ∙ sym (keyed a)

  -- An entry adds its amount to the balance of both its accounts and leaves every other account as
  -- it was; the entry is recorded.
  pub write_entry_lem :
      (e : LedgerEntry) (s : Books account) (j : String) (a : LedgerAccount)
      → account.find_unique j s.accounts ≡ some a
      → (account.find_unique j (write_entry account env e s).accounts ≡ some (posted e a))
        × ((write_entry account env e s).entries ≡ owned env e ∷ s.entries)
  unfolding write_entry
  write_entry_lem e s j a found =
      let first =
        account.update_many_lem (has_id e.debit_account_id) (add_balance e.amount) s.accounts j a
          (add_balance-key e.amount) found in
      (
        account.update_many_lem (has_id e.credit_account_id) (add_balance e.amount) _ j _
            (add_balance-key e.amount) first,
        refl,
      )

  -- The balance that both entries leave in an account.
  abbrev settled : SettlePaymentInput → Triple → LedgerAccount → LedgerAccount
  settled input t a =
      let gross = posted (gross_entry input t) a in
      if ltb 0 (fee_of input.amount_usdc) then posted (fee_entry input t) gross else gross

  post_entries_at :
      (input : SettlePaymentInput) (t : Triple) (s : Books account) (j : String) (a : LedgerAccount)
      → account.find_unique j s.accounts ≡ some a
      → account.find_unique j (post_entries account env input t s).accounts
        ≡ some (settled input t a)
  unfolding post_entries
  post_entries_at input t s j a found =
      let gross = (write_entry_lem (gross_entry input t) s j a found).0 in
      elim (Bool-cases (ltb 0 (fee_of input.amount_usdc))) [
        | inl y ↦ rw y (write_entry_lem (fee_entry input t) _ j _ gross).0
        | inr n ↦ rw n gross
      ]

  -- In `s'` the row of the account is `a` with `amount` more.
  abbrev pub Gains : Books account → LedgerAccount → ℕ → Type 0
  Gains s' a amount =
      account.find_unique a.id s'.accounts ≡ some (record a { balance = a.balance + amount })

  -- A settlement into three different accounts raises the asset by the gross amount, the revenue by
  -- the fee, and the liability by the gross amount and the fee, and leaves every other account as it
  -- was.
  pub post_entries_balances :
      (input : SettlePaymentInput) (t : Triple) (s : Books account)
      → account.find_unique t.asset_account.id s.accounts ≡ some t.asset_account
      → account.find_unique t.liability_account.id s.accounts ≡ some t.liability_account
      → account.find_unique t.revenue_account.id s.accounts ≡ some t.revenue_account
      → t.asset_account.id ≢ t.liability_account.id
      → t.asset_account.id ≢ t.revenue_account.id
      → t.liability_account.id ≢ t.revenue_account.id
      → let s' = post_entries account env input t s in
        Gains s' t.asset_account input.amount_usdc
        × Gains s' t.liability_account (input.amount_usdc + fee_of input.amount_usdc)
        × Gains s' t.revenue_account (fee_of input.amount_usdc)
        × ((j : String) (a : LedgerAccount)
            → j ≢ t.asset_account.id
            → j ≢ t.liability_account.id
            → j ≢ t.revenue_account.id
            → account.find_unique j s.accounts ≡ some a
            → account.find_unique j s'.accounts ≡ some a)
  post_entries_balances input t s fa fl fr al ar lr =
      let la = ===_ne (λ (e : t.liability_account.id ≡ t.asset_account.id). al (sym e)) in
      let ra = ===_ne (λ (e : t.revenue_account.id ≡ t.asset_account.id). ar (sym e)) in
      let rl = ===_ne (λ (e : t.revenue_account.id ≡ t.liability_account.id). lr (sym e)) in
      (
        rw (post_entries_at input t s _ _ fa)
            (ground (arith, ===_ne al, ===_ne ar, ===_refl t.asset_account.id)),
        rw (post_entries_at input t s _ _ fl)
            (ground (arith, la, ===_ne lr, ===_refl t.liability_account.id)),
        rw (post_entries_at input t s _ _ fr)
            (ground (arith, ra, rl, ===_refl t.revenue_account.id)),
        λ j a ja jl jr found.
            let own : a.id ≡ j = sym (keyed a) ∙ account.find_unique_key j s.accounts a found in
            let na = ===_ne (λ (e : a.id ≡ t.asset_account.id). ja (sym own ∙ e)) in
            let nl = ===_ne (λ (e : a.id ≡ t.liability_account.id). jl (sym own ∙ e)) in
            let nr = ===_ne (λ (e : a.id ≡ t.revenue_account.id). jr (sym own ∙ e)) in
            rw (post_entries_at input t s j a found) (ground (arith, na, nl, nr)),
      )

  -- The entries that a settlement leaves: the gross amount first and, exactly when the fee is not
  -- zero, the fee after it.
  pub post_entries-entries :
      (input : SettlePaymentInput) (t : Triple) (s : Books account)
      → (post_entries account env input t s).entries ≡ (
          if ltb 0 (fee_of input.amount_usdc)
          then owned env (fee_entry input t) ∷ owned env (gross_entry input t) ∷ s.entries
          else owned env (gross_entry input t) ∷ s.entries)
  unfolding post_entries write_entry
  post_entries-entries input t s = ground arith

-- The fee is the largest whole amount that is at most half a percent, and is never more than the
-- payment.
pub fee_of_bounds :
    (amount : ℕ)
    → (fee_of amount * 200 ≤ amount)
      × (amount < (fee_of amount + 1) * 200)
      × (fee_of amount ≤ amount)
unfolding fee_of
fee_of_bounds amount = omega arith
