-- ===== src/LeadScoring/Cache.antt =====
-- The cache in front of the score.
use crm_with_blockchain_rag.Base.{Bool, arith, none, some, ◌≡◌}
use crm_with_blockchain_rag.LeadScoring.{
  Lead, Signals, ScoreState, breakdown_of, compute_and_cache, get_score,
}

-- For a lead that is there, the score asked for after a computation, while the cache keeps it, is the one computed, whatever the
-- lead has become since, and asking for it changes nothing; a computation for a lead that is not
-- there changes nothing.
pub get_score-compute_and_cache :
    (written written' : Bool) (signals later : Signals) (s : ScoreState)
    → let (b, s') = compute_and_cache written signals s in
      ((l : Lead)
        → signals.lead ≡ some l
        → get_score written' later s' ≡ (breakdown_of signals, s'))
      × (signals.lead ≡ none → s' ≡ s)
unfolding compute_and_cache get_score
get_score-compute_and_cache written written' signals later s =
    (λ l e. ground arith, λ e. ground arith)
