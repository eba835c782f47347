-- ===== src/Models/Pagination.antt =====
-- crates/common/src/models.rs, `PaginationParams`.
pub mod Bounds
use circus.Common.{Option, none, some}
use circus.Common.Int.{ℤ, pos, max_ℤ, clamp_ℤ}

pub record PaginationParams : Type 0 where
  pub limit : Option ℤ
  pub offset : Option ℤ

-- `unwrap_or`.
abbrev unwrap_or : Option ℤ → ℤ → ℤ
unwrap_or none d = d
unwrap_or (some n) d = n

unfoldable pub limit : PaginationParams → ℤ
limit p = clamp_ℤ (unwrap_or p.limit (pos 50)) (pos 1) (pos 200)

unfoldable pub offset : PaginationParams → ℤ
offset p = max_ℤ (unwrap_or p.offset (pos 0)) (pos 0)

-- `Default`.
abbrev pub default_params : PaginationParams
default_params = record { limit = some (pos 50); offset = some (pos 0) }
