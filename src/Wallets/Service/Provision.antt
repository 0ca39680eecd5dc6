-- ===== src/Wallets/Service/Provision.antt =====
-- Provisioning a wallet, and its balance cache.
use crm_with_blockchain_rag.Base.{
  Option, Option-cases, String, arith, inl, inr, none, ok, refl, some, subst, sym, true, ◌≡◌, ◌≢◌,
}
use crm_with_blockchain_rag.Tenancy.Queries.{Env, passes, row_tenant, tenant_filter}
use crm_with_blockchain_rag.Prisma.{===_refl, create-finds}
use crm_with_blockchain_rag.Tenancy.{Operation, all_operations, current_tenant}
use crm_with_blockchain_rag.Ledger.{Chain, chain_eq}
use crm_with_blockchain_rag.Wallets.Types.{Wallet, WalletClient, WalletDb, CustodyWallet}
use crm_with_blockchain_rag.Wallets.Service.{
  is_operating, find_tenant_operating_wallet, new_wallet, provision_tenant_wallet, custody_label,
}

-- The row that is created belongs to the tenant whose rows are read.
passes-row_tenant :
    (env : Env) (t : String)
    → passes (tenant_filter env "Wallet" Operation.find_first (some t)) (row_tenant env "Wallet" t)
      ≡ true
unfolding all_operations
passes-row_tenant env t = elim (Option-cases (current_tenant env.store)) [
  | inl absent ↦ ground (arith, ===_refl t)
  | inr (u, present) ↦ ground (arith, ===_refl u)
]

chain_eq_refl : (c : Chain) → chain_eq c c ≡ true
chain_eq_refl Chain.polygon = refl
chain_eq_refl Chain.base = refl
chain_eq_refl Chain.ethereum = refl

module _ (c : WalletClient) (env : Env) where
  created_is_operating :
      (t : String) (chain : Chain) (label : Option String) (provider id : String)
      (g : CustodyWallet)
      → is_operating c env t chain (new_wallet c env t chain label provider g id) ≡ true
  created_is_operating t chain label provider id g =
      ground (arith, passes-row_tenant env t, chain_eq_refl chain)

  -- After a provisioning that succeeds the tenant has an operating wallet on the chain.
  provision_tenant_wallet-finds :
      (provider t : String) (chain : Chain) (label : Option String) (s s' : WalletDb c) (w : Wallet)
      → provision_tenant_wallet c env provider t chain label s ≡ (ok w, s')
      → find_tenant_operating_wallet c env t chain s' ≢ none
  unfolding provision_tenant_wallet find_tenant_operating_wallet
  provision_tenant_wallet-finds provider t chain label s s' w e =
      elim (Option-cases (c.wallet.find_first (is_operating c env t chain) s.wallets)) [
        | inr (v, found) ↦ ground arith
        | inl nothing_found ↦
            elim (Option-cases (
              c.custody.generate_wallet
                (record { tenant_id = t; chain = chain; label = custody_label t label })
                s.custody)) [
                  | inl rejected ↦ ground arith
                  | inr ((g, k), generated) ↦
                      let row = new_wallet c env t chain label provider g in
                      elim (Option-cases (c.wallet.create row s.wallets)) [
                        | inl refused ↦ ground arith
                        | inr ((r, wallets), made) ↦
                            let keys = λ (i : String). c.wallet_keyed (row i) in
                            let (as_row, _, _) =
                              c.wallet.create_lem row s.wallets wallets r keys made in
                            let held = create-finds c.wallet row s.wallets wallets r keys made in
                            let right : is_operating c env t chain r ≡ true =
                              subst (λ x. is_operating c env t chain x ≡ true) (sym as_row)
                                (created_is_operating t chain label provider (c.wallet.key r) g) in
                            let there =
                              c.wallet.find_first_complete (is_operating c env t chain) wallets
                                (c.wallet.key r) r held right in
                            λ missed. ground (arith, there)
                      ]
                ]
      ]

  -- Provisioning again, under whatever label, returns an operating wallet of the tenant on the chain
  -- and changes nothing.
  pub provision_tenant_wallet_again :
      (provider t : String) (chain : Chain) (label label' : Option String) (s s' : WalletDb c)
      (w : Wallet)
      → provision_tenant_wallet c env provider t chain label s ≡ (ok w, s')
      → (v : Wallet) × (provision_tenant_wallet c env provider t chain label' s' ≡ (ok v, s'))
        × (is_operating c env t chain v ≡ true)
  unfolding provision_tenant_wallet find_tenant_operating_wallet
  provision_tenant_wallet_again provider t chain label label' s s' w e =
      elim (Option-cases (c.wallet.find_first (is_operating c env t chain) s'.wallets)) [
        | inl missed ↦ absurd (provision_tenant_wallet-finds provider t chain label s s' w e missed)
        | inr (v, found) ↦ (v, ground arith, (c.wallet.find_first_sound _ s'.wallets v found).0)
      ]
