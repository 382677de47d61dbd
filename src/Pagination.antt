-- ===== src/Pagination.antt =====
-- services/shared/pagination.py.
pub mod Cover
mod Tests
use eventsphere.Prelude.{◌/◌, ◌&&◌, ◌+◌, leb, ◌*◌, Bool, ◌-◌, List, if◌then◌else◌, ℕ}
use eventsphere.Prelude.Lists.{drop, take}

-- Pydantic has checked `page >= 1` and `1 <= page_size <= 100`.
pub record PaginationParams : Type 0 where
  pub page : ℕ
  pub page_size : ℕ

abbrev pub accepts_pagination : ℕ → ℕ → Bool
accepts_pagination page page_size = leb 1 page && leb 1 page_size && leb page_size 100

abbrev pub limit : PaginationParams → ℕ
limit p = p.page_size

unfoldable pub offset : PaginationParams → ℕ
offset p = (p.page - 1) * p.page_size

pub record Page {ℓ} (A : Type ℓ) : Type ℓ where
  pub items : List A
  pub total : ℕ
  pub page : ℕ
  pub page_size : ℕ

abbrev pub create {ℓ} : {A : Type ℓ} → List A → ℕ → PaginationParams → Page A
create items total params = record {
  items = items;
  total = total;
  page = params.page;
  page_size = params.page_size;
}

unfoldable pub total_pages {ℓ} : {A : Type ℓ} → Page A → ℕ
total_pages p = if leb p.page_size 0 then 0 else (p.total + p.page_size - 1) / p.page_size

-- LIMIT and OFFSET of a listing.
abbrev pub slice {ℓ} : {A : Type ℓ} → PaginationParams → List A → List A
slice p xs = take (limit p) (drop (offset p) xs)
