-- ===== src/Types/Pagination.antt =====
-- src/types/pagination.rs. Overflow of `i64` wraps around, as in a release build.
pub mod Bounds
pub mod Pages
use portfolio_server.Prelude.{
  ℕ, ℤ, pos, negsuc, ◌+ℤ◌, ◌-ℤ◌, ◌*ℤ◌, wrap_i64, div_ℤ, max_ℤ, clamp, ltb_ℤ, Bool, true, false,
  ◌==◌, if◌then◌else◌, List,
}

pub record PaginationQuery : Type 0 where
  pub page_field : ℤ
  pub page_size_field : ℤ

abbrev pub default_page : ℤ
default_page = pos 1

abbrev pub default_page_size : ℤ
default_page_size = pos 20

unfoldable pub page : PaginationQuery → ℤ
page q = max_ℤ q.page_field (pos 1)

unfoldable pub page_size : PaginationQuery → ℤ
page_size q = clamp q.page_size_field (pos 1) (pos 20)

unfoldable pub limit : PaginationQuery → ℤ
unfolding page_size
limit q = page_size q

unfoldable pub offset : PaginationQuery → ℤ
unfolding page page_size
offset q = wrap_i64 (wrap_i64 (page q -ℤ pos 1) *ℤ page_size q)

pub record PaginationMeta : Type 0 where
  pub page : ℤ
  pub page_size : ℤ
  pub total_items : ℤ
  pub total_pages : ℤ

abbrev is_zero : ℤ → Bool
is_zero (pos n) = n == 0
is_zero (negsuc n) = false

unfoldable pub total_pages_of : ℤ → ℤ → ℤ
total_pages_of total_items size =
    if is_zero total_items
    then pos 1
    else wrap_i64 (div_ℤ (wrap_i64 (wrap_i64 (total_items +ℤ size) -ℤ pos 1)) size)

unfoldable pub from_total : ℤ → PaginationQuery → PaginationMeta
unfolding total_pages_of page page_size
from_total total_items q = record {
  page = page q;
  page_size = page_size q;
  total_items = total_items;
  total_pages = total_pages_of total_items (page_size q);
}

pub record PaginatedResponse {ℓ} (T : Type ℓ) : Type ℓ where
  pub items : List T
  pub pagination : PaginationMeta
