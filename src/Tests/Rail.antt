-- ===== src/Tests/Rail.antt =====
-- A small state of the payment rail (crm-backend/src/modules/payments and ledger) over the tables in
-- memory.
use crm_with_blockchain_rag.Base.{String, [], none, refl, some, true, ℕ, ◌+++◌, ◌∷◌, ◌≡◌}
use crm_with_blockchain_rag.Tenancy.Queries.{Env}
use crm_with_blockchain_rag.Prisma.Memory.Instance.{memory}
use crm_with_blockchain_rag.Ledger.{
  polygon, asset, liability, revenue, LedgerAccount, LedgerAccountType, Books,
}
use crm_with_blockchain_rag.Ledger.Service.{SettlePaymentInput, Triple}
use crm_with_blockchain_rag.Payments.StateMachine.{
  PaymentStatus, pending, confirming, completed, refunded,
}
use crm_with_blockchain_rag.Payments.Types.{inbound, Payment, WalletRef, Client, Db}

abbrev pub rail : Client
rail = record {
  payment = memory (λ p. p.id);
  account = memory (λ a. a.id);
  wallet = memory (λ w. w.id);
  takes = λ jobs job. true;
  payment_keyed = λ p. refl;
  account_keyed = λ a. refl;
}

abbrev pub keyed : (a : LedgerAccount) → rail.account.key a ≡ a.id
keyed a = refl

abbrev pub account_row : String → LedgerAccountType → String → ℕ → LedgerAccount
account_row id type code balance = record {
  id = id;
  tenant_id = "t1";
  wallet_id = none;
  type = type;
  name = code;
  code = code;
  chain = polygon;
  balance = balance;
}

abbrev pub accounts : Triple
accounts = record {
  asset_account = account_row "a1" asset "1010-POLYGON" 500;
  liability_account = account_row "a2" liability "2010-POLYGON" 300;
  revenue_account = account_row "a3" revenue "4010-POLYGON" 200;
}

abbrev pub books : Books rail.account
books = record {
  accounts = record {
    rows =
        accounts.asset_account
        ∷ accounts.liability_account
        ∷ accounts.revenue_account
        ∷ account_row "a4" asset "1010-BASE" 9
        ∷ [];
    supply = [];
  };
  entries = [];
}

-- The books before any account exists.
abbrev pub no_books : Books rail.account
no_books = record {
  accounts = record { rows = []; supply = "n1" ∷ "n2" ∷ "n3" ∷ [] };
  entries = [];
}

-- A payment of 1000 USDC.
abbrev pub payment_row : String → PaymentStatus → ℕ → Payment
payment_row id status expires = record {
  id = id;
  tenant_id = "t1";
  idempotency_key = "key-" +++ id;
  status = status;
  direction = inbound;
  amount_usdc = 1_000_000_000;
  chain = polygon;
  wallet_id = "w1";
  from_address = none;
  to_address = "0xab";
  deal_id = none;
  tx_hash = none;
  block_number = none;
  confirmations = 0;
  required_confirmations = 3;
  detected_at = none;
  confirmed_at = none;
  failed_at = none;
  expires_at = expires;
  failure_reason = none;
}

abbrev pub wallet : WalletRef
wallet = record { id = "w1"; tenant_id = "t1"; address = "0xab" }

abbrev pub db : Db rail
db = record {
  payments = record {
    rows =
        payment_row "p1" pending 50
        ∷ payment_row "p2" confirming 50
        ∷ payment_row "p3" completed 50
        ∷ payment_row "p4" refunded 50
        ∷ [];
    supply = "p5" ∷ [];
  };
  wallets = record { rows = wallet ∷ []; supply = [] };
  books = books;
  events = [];
  webhooks = [];
}

abbrev pub settlement : SettlePaymentInput
settlement = record {
  tenant_id = "t1";
  wallet_id = "w1";
  payment_id = "p2";
  amount_usdc = 1_000_000_000;
  chain = polygon;
}

-- A worker, after the payments above have expired, and a request of the tenant.
abbrev pub worker : Env
worker = record { store = none; now = 100; commits = true }

abbrev pub request : Env
request = record { store = some (record { tenant_id = some "t1" }); now = 100; commits = true }
