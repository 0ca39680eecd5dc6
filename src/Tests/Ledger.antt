-- ===== src/Tests/Ledger.antt =====
-- crm-backend/src/modules/ledger at concrete inputs.
use crm_with_blockchain_rag.Base.{String, err, ok, refl, some, ◌*◌, ◌+◌, ◌<◌, ◌≡◌, ◌≢◌, ◌≤◌, ◌⊎◌}
use crm_with_blockchain_rag.Ledger.{polygon, LedgerAccount, constraint_violation}
use crm_with_blockchain_rag.Ledger.Repository.{find_account, write_entry}
use crm_with_blockchain_rag.Ledger.Service.{
  fee_of, ensure_wallet_accounts, find_accounts, post_entries, settle_payment,
}
use crm_with_blockchain_rag.Ledger.Service.Provisioning.{Settles, settle_payment_total}
use crm_with_blockchain_rag.Ledger.Service.Posting.{Gains, fee_of_bounds}
use crm_with_blockchain_rag.Ledger.Service.Settlement.{
  settle_payment_balances, settle_payment_unbalances,
}
use crm_with_blockchain_rag.Tests.Rail.{worker, rail, keyed, accounts, books, no_books, settlement}

fee_of_bounds_example : (5 * 200 ≤ 1001) × (1001 < (5 + 1) * 200) × (5 ≤ 1001)
unfolding fee_of
fee_of_bounds_example = fee_of_bounds 1001

settle_payment_total_example :
    Settles rail.account keyed worker settlement no_books
      (settle_payment rail.account worker 2 settlement no_books)
    ⊎ Settles rail.account keyed worker settlement
        (ensure_wallet_accounts rail.account "t1" "w1" polygon no_books).1
        (settle_payment rail.account worker 2 settlement no_books)
    ⊎ ((settle_payment rail.account worker 2 settlement no_books).0 ≡ err constraint_violation)
settle_payment_total_example = settle_payment_total rail.account keyed worker settlement no_books

found : find_accounts rail.account "t1" polygon books ≡ some accounts
unfolding find_accounts find_account
found = refl

settle_payment_balances_example :
    let (r, s') = settle_payment rail.account worker 1 settlement books in
    (r ≡ ok tt)
    × Gains rail.account keyed worker s' accounts.asset_account 1_000_000_000
    × Gains rail.account keyed worker s' accounts.liability_account
        (1_000_000_000 + fee_of 1_000_000_000)
    × Gains rail.account keyed worker s' accounts.revenue_account (fee_of 1_000_000_000)
    × ((j : String) (a : LedgerAccount)
        → j ≢ "a1"
        → j ≢ "a2"
        → j ≢ "a3"
        → rail.account.find_unique j books.accounts ≡ some a
        → rail.account.find_unique j s'.accounts ≡ some a)
settle_payment_balances_example =
    settle_payment_balances rail.account keyed worker 0 settlement books accounts found

settle_payment_unbalances_example :
    1_000_000_500 + 2 * fee_of 1_000_000_000 ≡ 1_005_000_300 + 5_000_200
unfolding settle_payment find_accounts find_account post_entries write_entry fee_of
settle_payment_unbalances_example =
    settle_payment_unbalances rail.account keyed worker 0 settlement books accounts
      (record accounts.asset_account { balance = 1_000_000_500 })
      (record accounts.liability_account { balance = 1_005_000_300 })
      (record accounts.revenue_account { balance = 5_000_200 }) found refl refl refl refl
