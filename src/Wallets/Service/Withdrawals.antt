-- ===== src/Wallets/Service/Withdrawals.antt =====
-- Withdrawals: what passes the guards, and what they stop.
use Prim.Native.Nat.{◌^◌}
use native.Mathlib.Nat.{div-lt_iff_lt-mul, one-le-pow}
use crm_with_blockchain_rag.Base.{
  Option-cases, String, arith, err, false, filled, inl, inr, ok, refl, some, suc, true, ℕ, ◌*◌, ◌+◌,
  ◌/◌, ◌<◌, ◌≡◌, ◌≤◌, ◌⊎◌,
}
use crm_with_blockchain_rag.Tenancy.Queries.{Env}
use crm_with_blockchain_rag.Wallets.Types.{
  is_active, Wallet, Decimal, finite, infinite, not_a_number, units, nan_text,
  CustodyTransferResult, WalletClient, WalletDb, WalletError,
}
use crm_with_blockchain_rag.Wallets.Service.{
  lte_zero, balance_lt, amount_raw, WithdrawParams, transfer_of, find_wallet, withdraw,
}

-- An amount that the balance covers: a number above zero whose atomic units are within the balance.
pub Covered : ℕ → Decimal → Type 0
Covered balance amount =
    (n : ℕ) × (amount_raw amount ≡ units n) × (n ≤ balance) × (lte_zero amount ≡ false)

-- Rounding to atomic units, halves up, does not pass a whole number of units.
round-le : (d p b : ℕ) → 0 < p → d ≤ b * p → (2 * d + p) / (2 * p) ≤ b
round-le d p b hp h =
    let below = div-lt_iff_lt-mul {k = 2 * p} {x = 2 * d + p} {y = suc b} (omega arith) in
    ground arith

Covered-guards :
    (balance : ℕ) (amount : Decimal)
    → lte_zero amount ≡ false
    → balance_lt balance amount ≡ false
    → (amount ≡ not_a_number) ⊎ Covered balance amount
unfolding lte_zero balance_lt amount_raw Covered
Covered-guards balance (finite true d p) z l = cc
Covered-guards balance (finite false d p) z l = inr (
  (2 * (d * 1_000_000) + 10 ^ p) / (2 * 10 ^ p),
  refl,
  round-le (d * 1_000_000) (10 ^ p) balance (one-le-pow p 10 (omega arith)) (ground arith),
  z,
)
Covered-guards balance (infinite true) z l = cc
Covered-guards balance (infinite false) z l = cc
Covered-guards balance not_a_number z l = inl refl

module _ (c : WalletClient) (env : Env) where
  -- What a withdrawal that succeeds has found and done.
  pub record Withdrawn (id tenant_id : String) (params : WithdrawParams) (s s' : WalletDb c)
      (r : CustodyTransferResult) : Type 0 where
    pub wallet : Wallet
    pub found : find_wallet c env id tenant_id s ≡ some wallet
    pub active : is_active wallet.status ≡ true
    pub custody_id : String
    pub in_custody : filled wallet.custody_id ≡ some custody_id
    pub amount : Decimal
    pub read : c.parse_decimal params.amount_usdc ≡ some amount
    pub covered : (amount ≡ not_a_number) ⊎ Covered wallet.balance_usdc amount
    pub transferred :
        c.custody.transfer (transfer_of wallet custody_id params amount) s.custody
        ≡ some (r, s'.custody)
    pub rows_kept : s'.wallets ≡ s.wallets
    pub books_kept : s'.books ≡ s.books

  -- A withdrawal that succeeds found an active wallet of the tenant in custody, and has asked the
  -- custody provider for one transfer from it; unless the amount reads as NaN, its atomic units are
  -- within the wallet's balance and the amount is above zero. Wallets and ledger stay as they were.
  pub withdraw_lem :
      (id tenant_id : String) (params : WithdrawParams) (s s' : WalletDb c)
      (r : CustodyTransferResult)
      → withdraw c env id tenant_id params s ≡ (ok r, s')
      → Withdrawn id tenant_id params s s' r
  unfolding withdraw
  withdraw_lem id tenant_id params s s' r e =
      elim (Option-cases (find_wallet c env id tenant_id s)) [
        | inl missing ↦ ground arith
        | inr (w, found) ↦ elim (Option-cases (c.parse_decimal params.amount_usdc)) [
          | inl unread ↦ ground arith
          | inr (amount, was_read) ↦ elim (Option-cases (filled w.custody_id)) [
            | inl nowhere ↦ ground arith
            | inr (k, held) ↦
                elim (Option-cases (c.custody.transfer (transfer_of w k params amount) s.custody)) [
                  | inl rejected ↦ ground arith
                  | inr ((r', k'), sent) ↦ record {
                    wallet = w;
                    found = found;
                    active = ground arith;
                    custody_id = k;
                    in_custody = held;
                    amount = amount;
                    read = was_read;
                    covered = Covered-guards w.balance_usdc amount (ground arith) (ground arith);
                    transferred = ground arith;
                    rows_kept = ground arith;
                    books_kept = ground arith;
                  }
                ]
          ]
        ]
      ]

  -- A withdrawal that throws has left the wallets and the ledger as they were, and the custody
  -- provider as well, of which a call that rejects is taken to change nothing.
  pub withdraw_failed :
      (id tenant_id : String) (params : WithdrawParams) (s : WalletDb c) (e : WalletError)
      → (withdraw c env id tenant_id params s).0 ≡ err e
      → (withdraw c env id tenant_id params s).1 ≡ s
  unfolding withdraw
  withdraw_failed id tenant_id params s e h = ground arith

  -- An amount that reads as NaN passes both guards on the amount: from an active wallet in custody,
  -- whatever its balance, the text NaN is sent to the custody provider.
  pub withdraw_nan :
      (id tenant_id : String) (params : WithdrawParams) (s : WalletDb c) (w : Wallet) (k : String)
      (r : CustodyTransferResult) (k' : c.custody.State)
      → find_wallet c env id tenant_id s ≡ some w
      → is_active w.status ≡ true
      → filled w.custody_id ≡ some k
      → c.parse_decimal params.amount_usdc ≡ some not_a_number
      → c.custody.transfer
          (record (transfer_of w k params not_a_number) { amount_raw = nan_text })
          s.custody
        ≡ some (r, k')
      → withdraw c env id tenant_id params s ≡ (ok r, record s { custody = k' })
  unfolding withdraw lte_zero balance_lt amount_raw
  withdraw_nan id tenant_id params s w k r k' found active held parsed sent = ground arith
