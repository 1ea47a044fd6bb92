-- ===== src/Products/Listing.antt =====
-- The list of products, its query document, order and page (app/routers/products.py, list_products).
use restaurant_reservation_s.Prelude.{
  ℕ, ◌*◌, ◌^◌, Bool, true, false, not, ◌&&◌, ◌||◌, List, [], ◌∷◌, Option, none, some, ◌==◌, ltb,
  leb, text_eq, select,
}
use restaurant_reservation_s.Http.{Outcome, ok, raised}
use restaurant_reservation_s.Names.{Text}
use restaurant_reservation_s.Paging.{Page, paged, order_by}
use restaurant_reservation_s.Orders.Money.{Decimal}
use restaurant_reservation_s.Orders.Catalogue.{Product, Mongo}
use restaurant_reservation_s.Reservations.Listing.{cons_outcome}
use restaurant_reservation_s.Products.{Floats, ProductOut, product_out}

pub record ProductSummary : Type 0 where
  pub id : Text
  pub restaurant_id : ℕ
  pub name : Text
  pub category : Text
  pub price : Decimal
  pub currency : Text
  pub is_available : Bool

abbrev pub summary_of : Outcome ProductOut → Outcome ProductSummary
summary_of (raised x) = raised x
summary_of (ok o) = ok (record {
  id = o.id;
  restaurant_id = o.restaurant_id;
  name = o.name;
  category = o.category;
  price = o.price;
  currency = o.currency;
  is_available = o.is_available;
})

-- The query parameters of the list.
pub record Query : Type 0 where
  pub restaurant_id : Option ℕ
  pub category : Option Text
  pub min_price : Option Decimal
  pub max_price : Option Decimal
  pub available_only : Bool
  pub q : Option Text

-- x ≤ y
unfoldable pub decimal_le : Decimal → Decimal → Bool
decimal_le x y = leb (x.coefficient * 10 ^ y.places) (y.coefficient * 10 ^ x.places)

abbrev pub same_restaurant : Option ℕ → Option ℕ → Bool
same_restaurant none d = true
same_restaurant (some i) none = false
same_restaurant (some i) (some j) = i == j

-- `if category:` leaves the empty text out.
abbrev pub same_category : Option Text → Option Text → Bool
same_category none d = true
same_category (some []) d = true
same_category (some (c ∷ s)) none = false
same_category (some (c ∷ s)) (some t) = text_eq (c ∷ s) t

abbrev pub is_true : Option Bool → Bool
is_true none = false
is_true (some b) = b

module _ (f : Floats) (text_search : Text → Product → Bool) where
  abbrev pub at_least_price : Option Decimal → Option Decimal → Bool
  at_least_price none d = true
  at_least_price (some m) none = false
  at_least_price (some m) (some p) = decimal_le (f.float m) p

  abbrev pub at_most_price : Option Decimal → Option Decimal → Bool
  at_most_price none d = true
  at_most_price (some m) none = false
  at_most_price (some m) (some p) = decimal_le p (f.float m)

  abbrev pub found_by : Option Text → Product → Bool
  found_by none d = true
  found_by (some []) d = true
  found_by (some (c ∷ s)) d = text_search (c ∷ s) d

  -- The query document.
  unfoldable pub product_matches : Query → Product → Bool
  unfolding decimal_le
  product_matches q d =
      same_restaurant q.restaurant_id d.restaurant_id
      && same_category q.category d.category
      && (not q.available_only || is_true d.is_available)
      && at_least_price q.min_price d.price
      && at_most_price q.max_price d.price
      && found_by q.q d

  -- .sort("name", 1): by code points, and a document without a name first.
  unfoldable pub text_le : Text → Text → Bool
  text_le [] t = true
  text_le (c ∷ s) [] = false
  text_le (c ∷ s) (d ∷ t) = ltb c d || (c == d && text_le s t)

  abbrev pub name_before : Product → Product → Bool
  name_before x y = names x.name y.name
    where
      names : Option Text → Option Text → Bool
      names none t = true
      names (some s) none = false
      names (some s) (some t) = text_le s t

  unfoldable pub all_summaries : List Product → Outcome (List ProductSummary)
  unfolding product_out
  all_summaries [] = ok []
  all_summaries (d ∷ ds) = cons_outcome (summary_of (product_out d)) (all_summaries ds)

  abbrev pub page_with :
      Page Product → Outcome (List ProductSummary) → Outcome (Page ProductSummary)
  page_with p (raised x) = raised x
  page_with p (ok items) =
      ok
        (record { items = items; page = p.page; limit = p.limit; total = p.total; pages = p.pages })

  -- GET /api/v1/products
  unfoldable pub list_products : ℕ → ℕ → Query → Mongo → Outcome (Page ProductSummary)
  unfolding product_matches
  list_products page limit q m =
      let found = paged page limit (order_by name_before (select (product_matches q) m.products)) in
      page_with found (all_summaries found.items)
