-- ===== src/Pagination/Tests.antt =====
-- Examples for sdk/pagination.go.
use socialpublish.Prelude.{
  ℕ, String, true, false, none, some, [], ◌∷◌, map, if◌then◌else◌, str_eq, Result, ok, ◌≡◌, refl,
  arith,
}
use socialpublish.Pagination.{Page, new_iter}
use socialpublish.Pagination.Walk.{walk, Book, last_page, more_pages, walk-Book}

abbrev first_page : Page ℕ
first_page = record { items = 1 ∷ 2 ∷ []; next_cursor = "b"; has_more = true }

abbrev second_page : Page ℕ
second_page = record { items = 3 ∷ []; next_cursor = ""; has_more = false }

-- Two pages.
abbrev fetch : String → Result String (Page ℕ)
fetch cursor = if str_eq cursor "" then ok first_page else ok second_page

pages : Book fetch "" (1 ∷ 2 ∷ 3 ∷ [])
pages = more_pages 1 (2 ∷ []) "b" (3 ∷ []) refl (last_page 3 [] "" refl)

walk-Book_example :
    ((walk fetch 4 new_iter).0 ≡ map some (1 ∷ 2 ∷ 3 ∷ []))
    × ((walk fetch 4 new_iter).1.failed ≡ none)
    × ((walk fetch 4 new_iter).1.done ≡ true)
walk-Book_example = walk-Book fetch (1 ∷ 2 ∷ 3 ∷ []) 4 pages (omega arith)
