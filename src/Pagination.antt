-- ===== src/Pagination.antt =====
-- Pages of query results: crm-backend/src/shared/utils/pagination.utils.ts. Page and limit are whole
-- numbers from 1 on, as the schema of the request asks.
pub mod Cover
use crm_with_blockchain_rag.Base.{Bool, List, ltb, ℕ, ◌*◌, ◌+◌, ◌-◌, ◌/◌}

-- `Math.ceil(total / limit)`, for a limit that is not 0.
unfoldable pub total_pages : ℕ → ℕ → ℕ
total_pages total limit = (total + limit - 1) / limit

pub record Window : Type 0 where
  pub skip : ℕ
  pub take : ℕ

unfoldable pub build_prisma_skip_take : ℕ → ℕ → Window
build_prisma_skip_take page limit = record { skip = (page - 1) * limit; take = limit }

unfoldable pub has_next_page : ℕ → ℕ → ℕ → Bool
has_next_page page total limit = ltb (page * limit) total

pub record PaginatedResult (A : Type 0) : Type 0 where
  pub rows : List A
  pub total : ℕ
  pub page : ℕ
  pub limit : ℕ
  pub total_pages_count : ℕ

unfoldable pub build_paginated_result : {A : Type 0} → List A → ℕ → ℕ → ℕ → PaginatedResult A
unfolding total_pages
build_paginated_result rows total page limit = record {
  rows = rows;
  total = total;
  page = page;
  limit = limit;
  total_pages_count = total_pages total limit;
}
