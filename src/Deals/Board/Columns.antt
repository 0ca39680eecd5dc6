-- ===== src/Deals/Board/Columns.antt =====
-- The columns of the board share the deals out.
use crm_with_blockchain_rag.Base.{
  Bool, Bool-cases, List, String, [], any, arith, eq_iff, false, inl, inr, keep, length, map, refl,
  subst, sym, true, ℕ, ◌+◌, ◌===◌, ◌∷◌, ◌≡◌,
}
use crm_with_blockchain_rag.Tenancy.Queries.{Env}
use crm_with_blockchain_rag.Deals.Types.{Deal, Stage, DealClient, DealDb}
use crm_with_blockchain_rag.Deals.Board.{
  Column, sum_values, column_of, pipeline_stages, open_deals, get_kanban_board,
}

-- The totals over the columns.
abbrev pub counts : List Column → ℕ
counts [] = 0
counts (k ∷ ks) = k.count + counts ks

abbrev pub totals : List Column → ℕ
totals [] = 0
totals (k ∷ ks) = k.total_value + totals ks

-- A deal stands in one of the stages.
abbrev pub stands_in : List Stage → Deal → Bool
stands_in gs d = any (λ g. d.stage_id === g.id) gs

-- No two stages have the same id.
abbrev pub Distinct : List Stage → Type 0
Distinct [] = Unit
Distinct (g ∷ gs) = (any (λ h. g.id === h.id) gs ≡ false) × Distinct gs

elsewhere :
    (g : Stage) (gs : List Stage) (d : Deal)
    → any (λ h. g.id === h.id) gs ≡ false
    → (d.stage_id === g.id) ≡ true
    → stands_in gs d ≡ false
elsewhere g gs d apart here =
    subst (λ x. any (λ h. x === h.id) gs ≡ false) (sym ((eq_iff d.stage_id g.id).0 here)) apart

split_off :
    (g : Stage) (gs : List Stage) (ds : List Deal)
    → any (λ h. g.id === h.id) gs ≡ false
    → let here = keep (λ d. d.stage_id === g.id) ds in
      (length here + length (keep (stands_in gs) ds) ≡ length (keep (stands_in (g ∷ gs)) ds))
      × (sum_values here + sum_values (keep (stands_in gs) ds)
          ≡ sum_values (keep (stands_in (g ∷ gs)) ds))
unfolding sum_values
split_off g gs [] apart = (refl, refl)
split_off g gs (d ∷ ds) apart =
    let (counted, summed) = split_off g gs ds apart in
    elim (Bool-cases (d.stage_id === g.id)) [
      | inl here ↦ let other = elsewhere g gs d apart here in (ground arith, ground arith)
      | inr there ↦ elim (Bool-cases (stands_in gs d)) [
        | inl found ↦ (ground arith, ground arith)
        | inr lost_deal ↦ (ground arith, ground arith)
      ]
    ]

column_of_shares :
    (gs : List Stage) (ds : List Deal)
    → Distinct gs
    → (counts (map (column_of ds) gs) ≡ length (keep (stands_in gs) ds))
      × (totals (map (column_of ds) gs) ≡ sum_values (keep (stands_in gs) ds))
unfolding column_of sum_values
column_of_shares [] [] h = (refl, refl)
column_of_shares [] (d ∷ ds) h = column_of_shares [] ds h
column_of_shares (g ∷ gs) ds h =
    let (counted, summed) = column_of_shares gs ds h.1 in
    let (c, t) = split_off g gs ds h.0 in (ground arith, ground arith)

-- Where the stages of a pipeline have different ids, the counts of its board's columns add up to the
-- number of its open deals that stand in one of the stages, and the totals of the columns to the sum
-- of their values.
pub get_kanban_board_shares :
    (c : DealClient) (env : Env) (pipeline_id : String) (s : DealDb c)
    → Distinct (pipeline_stages c env pipeline_id s)
    → let board = get_kanban_board c env pipeline_id s in
      let placed =
        keep (stands_in (pipeline_stages c env pipeline_id s)) (open_deals c env pipeline_id s) in
      (counts board ≡ length placed) × (totals board ≡ sum_values placed)
unfolding get_kanban_board
get_kanban_board_shares c env pipeline_id s h = column_of_shares _ _ h
