-- ===== src/Wallets/Service/Balances.antt =====
-- The balance cache of a wallet.
use crm_with_blockchain_rag.Base.{
  Option-cases, String, arith, eq_iff, filled, inl, inr, ok, some, ℕ, ◌≡◌, ◌≢◌,
}
use crm_with_blockchain_rag.Tenancy.Queries.{Env}
use crm_with_blockchain_rag.Prisma.{===_refl}
use crm_with_blockchain_rag.Wallets.Types.{Wallet, WalletClient, WalletDb}
use crm_with_blockchain_rag.Wallets.Service.{cached, usdc_addresses, find_wallet, sync_balance}

module _ (c : WalletClient) (env : Env) where
  find_wallet_sound :
      (id t : String) (s : WalletDb c) (w : Wallet)
      → find_wallet c env id t s ≡ some w
      → c.wallet.find_unique id s.wallets ≡ some w
  unfolding find_wallet
  find_wallet_sound id t s w e =
      let (p, at) = c.wallet.find_first_sound _ s.wallets w e in
      ground (arith, c.wallet_keyed w, eq_iff w.id id)

  -- A sync that succeeds reports the balance that the wallet then holds, and has changed no other
  -- wallet and nothing of the ledger.
  pub sync_balance_lem :
      (id t : String) (s s' : WalletDb c) (balance : ℕ)
      → sync_balance c env id t s ≡ (ok balance, s')
      → ((w : Wallet) × (c.wallet.find_unique id s'.wallets ≡ some w) × (w.balance_usdc ≡ balance))
        × ((j : String)
            → id ≢ j
            → c.wallet.find_unique j s'.wallets ≡ c.wallet.find_unique j s.wallets)
        × (s'.books ≡ s.books)
  unfolding sync_balance
  sync_balance_lem id t s s' balance e = elim (Option-cases (find_wallet c env id t s)) [
    | inl missing ↦ ground arith
    | inr (w, found) ↦ elim (Option-cases (filled w.custody_id)) [
      | inl nowhere ↦ (
        (w, ground (arith, find_wallet_sound id t s w found), ground arith),
        λ j n. ground arith,
        ground arith,
      )
      | inr (k, held) ↦
          elim (Option-cases (c.custody.get_balance k w.chain (usdc_addresses w.chain) s.custody)) [
            | inl rejected ↦ ground arith
            | inr (raw, reported) ↦
                elim (Option-cases (c.wallet.update id (cached env raw) s.wallets)) [
                  | inl missed ↦ ground arith
                  | inr ((v, wallets), done) ↦
                      let (x, at, same, after) =
                        c.wallet.update_some id (cached env raw) s.wallets wallets v keys done in
                      (
                        (cached env raw x, ground (arith, after id, ===_refl id), ground arith),
                        λ j n. ground (arith, after j, eq_iff id j),
                        ground arith,
                      )
                ]
          ]
    ]
  ]
    where
      keys : {raw : ℕ} (x : Wallet) → c.wallet.key (cached env raw x) ≡ c.wallet.key x
      keys {raw} x = cc (c.wallet_keyed x, c.wallet_keyed (cached env raw x))
