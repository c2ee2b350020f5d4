-- ===== src/Tests/Pagination.antt =====
-- Tests of the pagination.
use portfolio_server.Types.Pagination.Bounds.{page_number}
use portfolio_server.Types.Pagination.Pages.{pages_from, pages_complete}
use portfolio_server.Prelude.{
  ℕ, ◌≡◌, refl, ◌≤◌, ◌*◌, ◌-◌, List, [], ◌∷◌, pos, pos_part, negsuc, arith, ◌^◌, ◌%◌,
}
use portfolio_server.Types.Pagination.{PaginationQuery, page, limit, offset, from_total}

abbrev third : PaginationQuery
third = record { page_field = pos 3; page_size_field = pos 50 }

-- The page size is cut to 20, and so is the start of the window.
third_window : (limit third ≡ pos 20) × (offset third ≡ pos 40)
unfolding limit offset
third_window = (refl, refl)

-- A page number near the top of `i64` gives a negative offset.
far_offset :
    offset (record { page_field = pos (2 ^ 60); page_size_field = pos 10 })
    ≡ negsuc (2 ^ 64 - 1 - (2 ^ 60 - 1) * 10 % 2 ^ 64)
unfolding offset
far_offset = refl

third_page : page_number third ≤ 2 ^ 58
unfolding page
third_page = omega arith

abbrev five : List ℕ
five = 1 ∷ 2 ∷ 3 ∷ 4 ∷ 5 ∷ []

pages_complete_example :
    pages_from
      (pos 2)
      1
      (pos_part
        (from_total (pos 5) (record { page_field = pos 1; page_size_field = pos 2 })).total_pages)
      five
    ≡ five
pages_complete_example = pages_complete (pos 2) 1 five (omega arith)
