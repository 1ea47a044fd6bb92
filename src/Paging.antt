-- ===== src/Paging.antt =====
-- What the list endpoints share: ORDER BY, OFFSET and LIMIT, and the Page of app/schemas/common.py.
-- Rows that ORDER BY does not tell apart keep the order of the table, which is arbitrary.
pub mod Cover
pub mod Ordered
use restaurant_reservation_s.Prelude.{
  ℕ, ◌+◌, ◌-◌, ◌*◌, ◌/◌, Bool, List, [], ◌∷◌, take, drop, length, if◌then◌else◌,
}

-- ORDER BY: `before x y` says that x must not stand after y.
module _ {ℓ} {A : Type ℓ} (before : A → A → Bool) where
  unfoldable pub insert_sorted : A → List A → List A
  insert_sorted x [] = x ∷ []
  insert_sorted x (y ∷ ys) = if before x y then x ∷ y ∷ ys else y ∷ insert_sorted x ys

  unfoldable pub order_by : List A → List A
  unfolding insert_sorted
  order_by [] = []
  order_by (x ∷ xs) = insert_sorted x (order_by xs)

-- `math.ceil(total / limit)`
unfoldable pub ceil_div : ℕ → ℕ → ℕ
ceil_div total limit = (total + (limit - 1)) / limit

-- `.offset((page - 1) * limit).limit(limit)`
unfoldable pub page_of {ℓ} : {A : Type ℓ} → ℕ → ℕ → List A → List A
page_of page limit xs = take limit (drop ((page - 1) * limit) xs)

pub record Page {ℓ} (A : Type ℓ) : Type ℓ where
  pub items : List A
  pub page : ℕ
  pub limit : ℕ
  pub total : ℕ
  pub pages : ℕ

-- The page that an endpoint returns for the rows that its filters leave, in order.
unfoldable pub paged {ℓ} : {A : Type ℓ} → ℕ → ℕ → List A → Page A
unfolding page_of ceil_div
paged page limit rows = record {
  items = page_of page limit rows;
  page = page;
  limit = limit;
  total = length rows;
  pages = ceil_div (length rows) limit;
}
