-- ===== src/Ledger/Service/Settlement.antt =====
-- A settlement seen from outside: the balances after it, and the trial balance.
use crm_with_blockchain_rag.Base.{
  String, arith, eq_iff, ok, refl, some, suc, sym, ℕ, ◌*◌, ◌+◌, ◌∙◌, ◌≡◌, ◌≢◌,
}
use crm_with_blockchain_rag.Prisma.{Table}
use crm_with_blockchain_rag.Tenancy.Queries.{Env}
use crm_with_blockchain_rag.Ledger.Types.{Chain, polygon, base, ethereum, LedgerAccount, Books}
use crm_with_blockchain_rag.Ledger.Repository.{find_account}
use crm_with_blockchain_rag.Ledger.Repository.Accounts.{find_account_sound, find_account_distinct}
use crm_with_blockchain_rag.Ledger.Service.{
  SettlePaymentInput, Triple, asset_code, liability_code, revenue_code, fee_of, find_accounts,
  settle_payment,
}
use crm_with_blockchain_rag.Ledger.Service.Posting.{Gains, post_entries_balances}

-- The three codes of a chain differ.
codes_differ :
    (c : Chain)
    → (asset_code c ≢ liability_code c)
      × (asset_code c ≢ revenue_code c)
      × (liability_code c ≢ revenue_code c)
codes_differ polygon = (
  ground (arith, eq_iff (asset_code polygon) (liability_code polygon)),
  ground (arith, eq_iff (asset_code polygon) (revenue_code polygon)),
  ground (arith, eq_iff (liability_code polygon) (revenue_code polygon)),
)
codes_differ base = (
  ground (arith, eq_iff (asset_code base) (liability_code base)),
  ground (arith, eq_iff (asset_code base) (revenue_code base)),
  ground (arith, eq_iff (liability_code base) (revenue_code base)),
)
codes_differ ethereum = (
  ground (arith, eq_iff (asset_code ethereum) (liability_code ethereum)),
  ground (arith, eq_iff (asset_code ethereum) (revenue_code ethereum)),
  ground (arith, eq_iff (liability_code ethereum) (revenue_code ethereum)),
)

module _ (account : Table LedgerAccount) (keyed : (a : LedgerAccount) → account.key a ≡ a.id)
    (env : Env) where
  find_accounts-some :
      (tenant : String) (c : Chain) (s : Books account) (t : Triple)
      → find_accounts account tenant c s ≡ some t
      → (find_account account tenant (asset_code c) s ≡ some t.asset_account)
        × (find_account account tenant (liability_code c) s ≡ some t.liability_account)
        × (find_account account tenant (revenue_code c) s ≡ some t.revenue_account)
  unfolding find_accounts
  find_accounts-some tenant c s t e = ground arith

  -- Where the three accounts of the chain exist, a settlement succeeds; it raises the asset account
  -- by the gross amount, the liability account by the gross amount and the fee, and the revenue
  -- account by the fee, and no other account changes.
  pub settle_payment_balances :
      (n : ℕ) (input : SettlePaymentInput) (s : Books account) (t : Triple)
      → find_accounts account input.tenant_id input.chain s ≡ some t
      → let (r, s') = settle_payment account env (suc n) input s in
        (r ≡ ok tt)
        × Gains account keyed env s' t.asset_account input.amount_usdc
        × Gains account keyed env s' t.liability_account
            (input.amount_usdc + fee_of input.amount_usdc)
        × Gains account keyed env s' t.revenue_account (fee_of input.amount_usdc)
        × ((j : String) (a : LedgerAccount)
            → j ≢ t.asset_account.id
            → j ≢ t.liability_account.id
            → j ≢ t.revenue_account.id
            → account.find_unique j s.accounts ≡ some a
            → account.find_unique j s'.accounts ≡ some a)
  unfolding settle_payment
  settle_payment_balances n input s t e =
      let (fa, fl, fr) = find_accounts-some input.tenant_id input.chain s t e in
      let (al, ar, lr) = codes_differ input.chain in
      let sound =
        λ (code : String) (a : LedgerAccount)
            (f : find_account account input.tenant_id code s ≡ some a).
          (find_account_sound account keyed input.tenant_id code s a f).2 in
      let differ =
        λ (c d : String) (a b : LedgerAccount)
            (f : find_account account input.tenant_id c s ≡ some a)
            (g : find_account account input.tenant_id d s ≡ some b) (ne : c ≢ d).
          find_account_distinct account keyed input.tenant_id c d s a b f g ne in
      let (ga, gl, gr, rest) =
        post_entries_balances account keyed env input t s (sound _ _ fa) (sound _ _ fl)
          (sound _ _ fr) (differ _ _ _ _ fa fl al) (differ _ _ _ _ fa fr ar)
          (differ _ _ _ _ fl fr lr) in
      rw (e, settle_payment) (refl, ga, gl, gr, rest)

  -- A settlement of a trial balance that is even leaves the liability and revenue side heavier than
  -- the asset side by twice the fee: so the books stay even only where the fee rounds to nothing.
  pub settle_payment_unbalances :
      (n : ℕ) (input : SettlePaymentInput) (s : Books account) (t : Triple) (a l r : LedgerAccount)
      → find_accounts account input.tenant_id input.chain s ≡ some t
      → t.asset_account.balance ≡ t.liability_account.balance + t.revenue_account.balance
      → let s' = (settle_payment account env (suc n) input s).1 in
        account.find_unique t.asset_account.id s'.accounts ≡ some a
        → account.find_unique t.liability_account.id s'.accounts ≡ some l
        → account.find_unique t.revenue_account.id s'.accounts ≡ some r
        → a.balance + 2 * fee_of input.amount_usdc ≡ l.balance + r.balance
  settle_payment_unbalances n input s t a l r e even fa fl fr =
      let (_, ga, gl, gr, _) = settle_payment_balances n input s t e in
      let ba : a.balance ≡ t.asset_account.balance + input.amount_usdc = balance_of (sym fa ∙ ga) in
      let bl : l.balance
          ≡ t.liability_account.balance + (input.amount_usdc + fee_of input.amount_usdc) =
        balance_of (sym fl ∙ gl) in
      let br : r.balance ≡ t.revenue_account.balance + fee_of input.amount_usdc =
        balance_of (sym fr ∙ gr) in
      omega arith
    where
      balance_of : {x y : LedgerAccount} → some x ≡ some y → x.balance ≡ y.balance
      balance_of h = ground arith
