-- ===== src/Types/Pagination/Bounds.antt =====
-- Where the window of a page lies, and that the pages of a list are the list.
use portfolio_server.Prelude.{
  ℕ, ◌+◌, ◌-◌, ◌*◌, ◌/◌, ◌^◌, ◌≤◌, ◌<◌, ◌≡◌, pos, pos_part, arith, wrap_i64, suc, ◌-ℤ◌, ◌*ℤ◌, zero,
  refl, ◌⊎◌, inr, inl,
}
use portfolio_server.Types.Pagination.{
  PaginationQuery, page, page_size, limit, offset, total_pages_of, from_total,
}

-- The page and the size of a query after clamping, as numbers.
abbrev pub page_number : PaginationQuery → ℕ
page_number q = pos_part (page q)

abbrev pub size_number : PaginationQuery → ℕ
size_number q = pos_part (page_size q)

pub page_size_range :
    (q : PaginationQuery)
    → (page_size q ≡ pos (size_number q)) × (1 ≤ size_number q) × (size_number q ≤ 20)
unfolding page_size
page_size_range q = ground arith

pub page_range : (q : PaginationQuery) → (page q ≡ pos (page_number q)) × (1 ≤ page_number q)
unfolding page
page_range q = ground arith

product_bound : (a s : ℕ) → a ≤ 2 ^ 58 → s ≤ 20 → a * s ≤ 2 ^ 58 * 20
product_bound a s h k = grind arith

wrap_small : (n : ℕ) → n < 2 ^ 63 → wrap_i64 (pos n) ≡ pos n
wrap_small n h = ground arith

pred_small : (p : ℕ) → 1 ≤ p → p ≤ 2 ^ 58 → wrap_i64 (pos p -ℤ pos 1) ≡ pos (p - 1)
pred_small p lo hi = ground arith

mul_pos : (a s : ℕ) → pos a *ℤ pos s ≡ pos (a * s)
mul_pos a s = ground arith

-- The window of a query starts at a multiple of its size and has 1 to 20 rows, as long as the page
-- number is at most 2^58.
pub window_exact :
    (q : PaginationQuery)
    → page_number q ≤ 2 ^ 58
    → (limit q ≡ pos (size_number q))
      × (offset q ≡ pos ((page_number q - 1) * size_number q))
      × (1 ≤ size_number q)
      × (size_number q ≤ 20)
unfolding limit offset
window_exact q h =
    let (size, lo, hi) = page_size_range q in
    let (number, first) = page_range q in
    (
      size,
      rw
          (
            size,
            number,
            pred_small (page_number q) first h,
            mul_pos (page_number q - 1) (size_number q),
          )
          (wrap_small _
            (omega (arith, product_bound (page_number q - 1) (size_number q) (omega arith) hi))),
      lo,
      hi,
    )

total_pages_exact :
    (t s : ℕ)
    → 0 < t
    → t ≤ 2 ^ 62
    → 1 ≤ s
    → s ≤ 20
    → (n : ℕ) × (total_pages_of (pos t) (pos s) ≡ pos n)
      × (t ≤ n * s)
      × (n * s < t + s)
      × ((n - 1) * s < t)
unfolding total_pages_of
total_pages_exact t s h1 h2 h3 h4 =
    ((t + s - 1) / s, ground arith, ground arith, ground arith, grind arith)

-- The reported number of pages is the least that holds all items, and 1 where there are none, for
-- up to 2^62 items.
pub from_total-total_pages :
    (t : ℕ) (q : PaginationQuery)
    → t ≤ 2 ^ 62
    → (n : ℕ) × ((from_total (pos t) q).total_pages ≡ pos n)
      × (t ≤ n * size_number q)
      × (1 ≤ n)
      × (((n - 1) * size_number q < t) ⊎ ((t ≡ 0) × (n ≡ 1)))
unfolding from_total
from_total-total_pages zero q h =
    let (size, lo, hi) = page_size_range q in (1, refl, omega arith, omega arith, inr (refl, refl))
from_total-total_pages (suc t) q h =
    let (size, lo, hi) = page_size_range q in
    let (n, e, above, near, below) =
      total_pages_exact (suc t) (size_number q) (omega arith) h lo hi in
    (n, rw size e, above, grind arith, inl below)
