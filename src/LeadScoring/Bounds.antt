-- ===== src/LeadScoring/Bounds.antt =====
-- The ranges of the factors, and what the score depends on.
use crm_with_blockchain_rag.Base.{
  Option, Option-cases, String, arith, inl, inr, none, some, ℕ, ◌+◌, ◌≡◌, ◌≤◌,
}
use crm_with_blockchain_rag.LeadScoring.{
  LeadStatus, new_lead, Lead, Signals, points, profile_completeness_of, recency_of,
  status_weight_of, breakdown_of,
}

points-le : (o : Option String) (n : ℕ) → points o n ≤ n
points-le none n = omega arith
points-le (some s) n = ground arith

recency_of-le : (o : Option ℕ) → recency_of o ≤ 25
recency_of-le none = omega arith
recency_of-le (some d) = ground arith

recency_of-anti : (d e : ℕ) → d ≤ e → recency_of (some e) ≤ recency_of (some d)
recency_of-anti d e h = ground arith

status_weight_of-le : (s : LeadStatus) → status_weight_of s ≤ 15
status_weight_of-le new_lead = omega arith
status_weight_of-le _ = omega arith

profile_completeness_of-le : (l : Lead) → profile_completeness_of l ≤ 20
profile_completeness_of-le l = omega (
  arith,
  points-le l.email 8,
  points-le l.phone 6,
  points-le l.company_name 4,
  points-le l.job_title 2,
)

-- Every factor stays within the maximum of the table in the source, the total within 100, and the
-- total is the sum of the factors: the cap at 100 never takes anything away.
pub breakdown_of_bounds :
    (s : Signals)
    → let b = breakdown_of s in
      (b.profile_completeness ≤ 20)
      × (b.activity_frequency ≤ 25)
      × (b.recency ≤ 25)
      × (b.email_engagement ≤ 15)
      × (b.status_weight ≤ 15)
      × (b.total ≤ 100)
      × (b.total
          ≡ b.profile_completeness + b.activity_frequency + b.recency + b.email_engagement
            + b.status_weight)
unfolding breakdown_of
breakdown_of_bounds s = elim (Option-cases s.lead) [
  | inl missing ↦ rw (missing, breakdown_of) (omega arith)
  | inr (l, found) ↦
      rw (found, breakdown_of)
        (omega (
          arith,
          profile_completeness_of-le l,
          recency_of-le l.days_since_contact,
          status_weight_of-le l.status,
        ))
]
