-- ===== src/Pagination/Cover.antt =====
-- The pages cover the result, without gap or overlap.
use Prim.Native.Nat.{suc}
use native.Mathlib.Nat.{div-lt_iff_lt-mul, le-div_iff_mul-le}
use crm_with_blockchain_rag.Base.{arith, true, zero, ℕ, ◌+◌, ◌-◌, ◌/◌, ◌<◌, ◌↔◌, ◌≡◌, ◌≤◌}
use crm_with_blockchain_rag.Pagination.{total_pages, build_prisma_skip_take, has_next_page}

-- A row lies in the window of a page.
abbrev pub InPage : ℕ → ℕ → ℕ → Type 0
InPage limit page i =
    let w = build_prisma_skip_take page limit in (w.skip ≤ i) × (i < w.skip + w.take)

-- Every row of the result lies in the window of exactly one page: the page of row `i` is
-- `i / limit + 1`.
pub InPage-iff :
    (limit page i : ℕ) → 0 < limit → 0 < page → InPage limit page i ↔ (page ≡ i / limit + 1)
unfolding build_prisma_skip_take
InPage-iff limit zero i hl hp = omega arith
InPage-iff limit (suc page) i hl hp =
    let low = le-div_iff_mul-le {k = limit} {x = page} {y = i} hl in
    let high = div-lt_iff_lt-mul {k = limit} {x = i} {y = suc page} hl in ground arith

-- There is a next page exactly where the page is below the number of pages.
pub has_next_page_iff :
    (page total limit : ℕ)
    → 0 < limit
    → (has_next_page page total limit ≡ true) ↔ (page < total_pages total limit)
unfolding has_next_page total_pages
has_next_page_iff page total limit hl =
    let low = le-div_iff_mul-le {k = limit} {x = suc page} {y = total + limit - 1} hl in
    ground arith
