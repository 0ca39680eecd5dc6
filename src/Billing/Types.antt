-- ===== src/Billing/Types.antt =====
-- The rows and plans of crm-backend/src/modules/billing, and what it calls. Amounts are numbers of
-- cents, times numbers of milliseconds; the numbers and texts of JavaScript are parameters.
use crm_with_blockchain_rag.Base.{Bool, List, Option, String, [], none, some, ℕ, ◌∷◌, ◌≡◌}
use crm_with_blockchain_rag.Prisma.{Table}

pub data BillingCycle : Type 0 where
  monthly annual : BillingCycle

pub data Currency : Type 0 where
  eth usdc usdt dai : Currency

pub data BillingError : Type 0 where
  business_rule external_service not_found record_missing constraint_violation : BillingError

-- The member `pendingCryptoPayment` of the column `metadata`; prices of ether are of type `N`.
pub record Pending (N : Type 0) : Type 0 where
  pub ref : String
  pub plan_id : String
  pub currency : Currency
  pub amount : String
  pub amount_usd : ℕ
  pub billing_cycle : BillingCycle
  pub wallet_address : String
  pub eth_price_usd : Option N
  pub created_at : ℕ
  pub expires_at : ℕ

-- The member `lastCryptoPayment`.
pub record Confirmed (N : Type 0) : Type 0 where
  pub payment : Pending N
  pub confirmed_at : ℕ
  pub tx_hash : String

pub record Metadata (N : Type 0) : Type 0 where
  pub pending_crypto_payment : Option (Pending N)
  pub last_crypto_payment : Option (Confirmed N)
  pub others : List (String × String)

pub record BillingInfo (N : Type 0) : Type 0 where
  pub id : String
  pub tenant_id : String
  pub stripe_customer_id : Option String
  pub stripe_subscription_id : Option String
  pub paypal_subscription_id : Option String
  pub plan : String
  pub status : String
  pub current_period_end : Option ℕ
  pub cancel_at_period_end : Bool
  pub metadata : Metadata N

-- The numbers that ether is priced in, `toUpperCase`, `slice(0, 8)`, a time as a text, the division
-- of cents by a price with six digits, cents with two digits, and `CRYPTO_WALLET_ADDRESS`.
pub record BillingClient : Type 1 where
  pub N : Type 0
  pub fallback_price : N
  pub upper : String → String
  pub first_eight : String → String
  pub show : ℕ → String
  pub in_eth : ℕ → N → String
  pub in_usd : ℕ → String
  pub wallet_address : Option String
  pub billing : Table (BillingInfo N)
  pub billing_keyed : (b : BillingInfo N) → billing.key b ≡ b.id

pub record CreateCryptoPaymentDto : Type 0 where
  pub plan_id : String
  pub currency : Currency
  pub billing_cycle : BillingCycle

pub record ConfirmCryptoPaymentDto : Type 0 where
  pub tenant_id : String
  pub tx_hash : String

pub record Plan : Type 0 where
  pub id : String
  pub name : String
  pub price : ℕ
  pub currency : String
  pub interval : Option String
  pub features : List String

-- `PLANS`; a price is in dollars.
abbrev pub plans : List Plan
plans =
    record {
      id = "free";
      name = "Free";
      price = 0;
      currency = "usd";
      interval = none;
      features = "Up to 3 users" ∷ "500 contacts" ∷ "100 deals" ∷ "Basic CRM features" ∷ [];
    }
    ∷ record {
      id = "starter";
      name = "Starter";
      price = 49;
      currency = "usd";
      interval = some "month";
      features =
          "Up to 10 users" ∷ "5,000 contacts" ∷ "Unlimited deals" ∷ "Email integration"
          ∷ "Basic analytics" ∷ [];
    }
    ∷ record {
      id = "pro";
      name = "Pro";
      price = 99;
      currency = "usd";
      interval = some "month";
      features =
          "Up to 50 users" ∷ "Unlimited contacts" ∷ "Advanced analytics" ∷ "Automation workflows"
          ∷ "Webhooks" ∷ "API access" ∷ [];
    }
    ∷ record {
      id = "pro_plus";
      name = "Pro Plus";
      price = 149;
      currency = "usd";
      interval = some "month";
      features =
          "Up to 100 users" ∷ "Unlimited contacts" ∷ "Everything in Pro" ∷ "Priority phone support"
          ∷ "Custom reporting" ∷ "Advanced AI features" ∷ "Blockchain audit trail" ∷ [];
    }
    ∷ record {
      id = "ultimate";
      name = "Ultimate";
      price = 499;
      currency = "usd";
      interval = some "month";
      features =
          "Unlimited users" ∷ "Unlimited contacts & deals" ∷ "Dedicated account manager"
          ∷ "Custom AI model training" ∷ "White-label option" ∷ "On-premise deployment"
          ∷ "Custom SLA & contracts" ∷ [];
    }
    ∷ record {
      id = "enterprise";
      name = "Enterprise";
      price = 0;
      currency = "usd";
      interval = none;
      features =
          "Unlimited users" ∷ "Dedicated infrastructure" ∷ "Custom integrations" ∷ "SSO / SAML"
          ∷ "Compliance packages" ∷ "Named support engineer" ∷ "Custom contracts" ∷ [];
    }
    ∷ []
