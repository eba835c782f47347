-- ===== src/Models/Pagination/Bounds.antt =====
-- crates/common/src/models.rs: what `PaginationParams` lets through to a query.
use circus.Common.{◌≡◌, some, arith}
use circus.Common.Int.{ℤ, pos, negsuc, ◌≤ℤ◌}
use circus.Models.Pagination.{PaginationParams, limit, offset}

-- Whatever the client asks for, the page size is between 1 and 200 and the offset is not negative.
limit_offset_bounds :
    (p : PaginationParams) → (pos 1 ≤ℤ limit p) × (limit p ≤ℤ pos 200) × (pos 0 ≤ℤ offset p)
unfolding limit offset
limit_offset_bounds p = ground arith

-- A request that is in range is passed on as it is.
limit_offset_in_range :
    (p : PaginationParams) (n m : ℤ)
    → p.limit ≡ some n
    → pos 1 ≤ℤ n
    → n ≤ℤ pos 200
    → p.offset ≡ some m
    → pos 0 ≤ℤ m
    → (limit p ≡ n) × (offset p ≡ m)
unfolding limit offset
limit_offset_in_range p (pos n) (pos m) a b c d e = ground arith
limit_offset_in_range p (negsuc n) m a b c d e = absurd (omega arith)
limit_offset_in_range p (pos n) (negsuc m) a b c d e = absurd (omega arith)
