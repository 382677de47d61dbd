-- ===== src/Pagination/Tests.antt =====
-- The theorems on pages at concrete inputs.
use eventsphere.Prelude.{List, arith, [], ◌∷◌, ◌≡◌, ◌<◌, ◌*◌, ◌+◌, ℕ}
use eventsphere.Pagination.{Page, total_pages, create}
use eventsphere.Pagination.Cover.{listing_paged, pages}

abbrev five : List ℕ
five = 1 ∷ 2 ∷ 3 ∷ 4 ∷ 5 ∷ []

abbrev by_two : Page ℕ
by_two = create five 5 (record { page = 1; page_size = 2 })

listing_paged_example :
    (pages 2 (total_pages by_two) five ≡ five) × (total_pages by_two * 2 < 5 + 2)
listing_paged_example = listing_paged 2 five (omega arith)
