-- ===== src/LeadScoring.antt =====
-- Lead scores: crm-backend/src/modules/analytics/lead-scoring.service.ts (`computeAndCache`, and the
-- cache in front of it).
pub mod Bounds
pub mod Cache
use crm_with_blockchain_rag.Base.{
  Bool, List, Option, String, false, if◌then◌else◌, keep, leb, length, min, none, some, true,
  truthy, ℕ, ◌*◌, ◌+◌,
}

pub data LeadStatus : Type 0 where
  new_lead contacted qualified unqualified nurturing converted lost : LeadStatus

pub data CommunicationStatus : Type 0 where
  queued sent delivered undelivered opened clicked bounced : CommunicationStatus

-- The columns of a lead that the score reads. A day count stands for the last contact, as
-- `differenceInDays` reports it: `none` where there was no contact, and 0 for one that lies ahead.
pub record Lead : Type 0 where
  pub email : Option String
  pub phone : Option String
  pub company_name : Option String
  pub job_title : Option String
  pub status : LeadStatus
  pub days_since_contact : Option ℕ

-- The queries of one computation: the lead, its activities of the last thirty days, and its mails.
pub record Signals : Type 0 where
  pub lead : Option Lead
  pub activity_count : ℕ
  pub communications : List CommunicationStatus

pub record LeadScoreBreakdown : Type 0 where
  pub total : ℕ
  pub profile_completeness : ℕ
  pub activity_frequency : ℕ
  pub recency : ℕ
  pub email_engagement : ℕ
  pub status_weight : ℕ

abbrev pub points : Option String → ℕ → ℕ
points none n = 0
points (some s) n = if truthy s then n else 0

abbrev pub profile_completeness_of : Lead → ℕ
profile_completeness_of l =
    points l.email 8 + points l.phone 6 + points l.company_name 4 + points l.job_title 2

abbrev pub activity_frequency_of : ℕ → ℕ
activity_frequency_of n = min (n * 5) 25

abbrev pub recency_of : Option ℕ → ℕ
recency_of none = 0
recency_of (some days) =
    if leb days 3
    then 25
    else if leb days 7
    then 20
    else if leb days 14
    then 15
    else if leb days 30
    then 8
    else 0

abbrev is_opened : CommunicationStatus → Bool
is_opened opened = true
is_opened _ = false

abbrev is_clicked : CommunicationStatus → Bool
is_clicked clicked = true
is_clicked _ = false

abbrev pub email_engagement_of : List CommunicationStatus → ℕ
email_engagement_of cs =
    min (length (keep is_opened cs) * 3) 9 + min (length (keep is_clicked cs) * 6) 6

abbrev pub status_weight_of : LeadStatus → ℕ
status_weight_of new_lead = 5
status_weight_of contacted = 8
status_weight_of nurturing = 10
status_weight_of qualified = 15
status_weight_of unqualified = 0
status_weight_of converted = 0
status_weight_of lost = 0

abbrev empty_breakdown : LeadScoreBreakdown
empty_breakdown = record {
  total = 0;
  profile_completeness = 0;
  activity_frequency = 0;
  recency = 0;
  email_engagement = 0;
  status_weight = 0;
}

-- The breakdown; the sum is of whole numbers, so that rounding leaves it.
unfoldable pub breakdown_of : Signals → LeadScoreBreakdown
breakdown_of s = elim (s.lead) [
  | none ↦ empty_breakdown
  | some l ↦ record {
    total =
        min
          (profile_completeness_of l
            + activity_frequency_of s.activity_count
            + recency_of l.days_since_contact
            + email_engagement_of s.communications
            + status_weight_of l.status)
          100;
    profile_completeness = profile_completeness_of l;
    activity_frequency = activity_frequency_of s.activity_count;
    recency = recency_of l.days_since_contact;
    email_engagement = email_engagement_of s.communications;
    status_weight = status_weight_of l.status;
  }
]

-- The score column and the cache entry of one lead; writing the column may fail unnoticed.
pub record ScoreState : Type 0 where
  pub score : ℕ
  pub cached : Option LeadScoreBreakdown

unfoldable pub compute_and_cache : Bool → Signals → ScoreState → LeadScoreBreakdown × ScoreState
compute_and_cache written signals s = elim (signals.lead) [
  | none ↦ (breakdown_of signals, s)
  | some l ↦
      let b = breakdown_of signals in
      (b, record { score = if written then b.total else s.score; cached = some b })
]

unfoldable pub get_score : Bool → Signals → ScoreState → LeadScoreBreakdown × ScoreState
get_score written signals s = elim (s.cached) [
  | some b ↦ (b, s)
  | none ↦ compute_and_cache written signals s
]
