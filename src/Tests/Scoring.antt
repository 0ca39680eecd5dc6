-- ===== src/Tests/Scoring.antt =====
-- crm-backend/src/modules/analytics/lead-scoring.service.ts and pages of results at concrete inputs.
use crm_with_blockchain_rag.Base.{[], none, some, ◌+◌, ◌∷◌, ◌≡◌, ◌≤◌}
use crm_with_blockchain_rag.LeadScoring.{
  qualified, opened, clicked, Lead, Signals, ScoreState, breakdown_of,
}
use crm_with_blockchain_rag.LeadScoring.Bounds.{breakdown_of_bounds}

abbrev lead : Lead
lead = record {
  email = some "ada@example.com";
  phone = some "";
  company_name = none;
  job_title = some "CTO";
  status = qualified;
  days_since_contact = some 5;
}

abbrev signals : Signals
signals = record {
  lead = some lead;
  activity_count = 3;
  communications = opened ∷ clicked ∷ opened ∷ [];
}

abbrev gone : Signals
gone = record { lead = none; activity_count = 0; communications = [] }

abbrev unscored : ScoreState
unscored = record { score = 0; cached = none }

breakdown_of_bounds_example :
    let b = breakdown_of signals in
    (b.profile_completeness ≤ 20)
    × (b.activity_frequency ≤ 25)
    × (b.recency ≤ 25)
    × (b.email_engagement ≤ 15)
    × (b.status_weight ≤ 15)
    × (b.total ≤ 100)
    × (b.total
        ≡ b.profile_completeness + b.activity_frequency + b.recency + b.email_engagement
          + b.status_weight)
breakdown_of_bounds_example = breakdown_of_bounds signals
