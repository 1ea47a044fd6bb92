-- ===== src/Products/Pricing.antt =====
-- From the price that staff enter to the price that a customer is charged (app/routers/products.py,
-- create_product, and app/services/orders.py, create_order).
use restaurant_reservation_s.Prelude.{
  ◌∙◌, ℕ, zero, suc, ◌-◌, ◌*◌, ◌^◌, ◌≤◌, ◌<◌, ◌≡◌, refl, true, false, [], ◌∷◌, some, leb, arith,
  Bool, All, ◌%◌,
}
use native.Mathlib.Nat.{mul-mod_left, mul-div_cancel, pow-suc, one-le-pow}
use restaurant_reservation_s.Http.{Outcome, ok, raised}
use restaurant_reservation_s.Names.{Text}
use restaurant_reservation_s.Models.User.{User, staff, admin}
use restaurant_reservation_s.Security.{require_role}
use restaurant_reservation_s.Orders.Money.{Decimal, quantize, round_half_even}
use restaurant_reservation_s.Orders.Catalogue.{Product, Mongo, ObjectIds, find_product, OrderCreate}
use restaurant_reservation_s.Orders.Placing.{price_of, create_order}
use restaurant_reservation_s.Products.{
  ProductCreate, ProductOut, Floats, validate_product, new_product, product_out, get_product,
  create_product, inserted, read_back,
}
use restaurant_reservation_s.Products.Lines.{IsCharged, find_product-head, lines-AllCharged}
use restaurant_reservation_s.Database.{Db, Engine}
use restaurant_reservation_s.Models.Order.{Order}
use restaurant_reservation_s.Orders.Receipt.{create_order-receipt}

-- The value in hundredths of a decimal with at most two places.
abbrev pub hundredths : Decimal → ℕ
hundredths x = x.coefficient * 10 ^ (2 - x.places)

few_digits : (c p : ℕ) → p ≤ 2 → c * 10 ^ (2 - p) < 10 ^ 10 → c < 10 ^ 15
few_digits c zero h k = omega (arith, k)
few_digits c (suc zero) h k = omega (arith, k)
few_digits c (suc (suc zero)) h k = omega (arith, k)
few_digits c (suc (suc (suc p))) h k = absurd (omega arith)

round_half_even-exact : (n d : ℕ) → 0 < d → round_half_even (n * d) d ≡ n
unfolding round_half_even
round_half_even-exact n d h = rw (mul-mod_left n d, mul-div_cancel n h) (ground (arith, h))

-- Past the second place, a decimal of the same value has the hundredths and then zeros.
hundredths_shifted :
    (c p n k : ℕ) → p ≤ 2 → n * 10 ^ p ≡ c * (k * 10 * 10) → n ≡ c * 10 ^ (2 - p) * k
hundredths_shifted c zero n k h e = grind (arith, e)
hundredths_shifted c (suc zero) n k h e = grind (arith, e)
hundredths_shifted c (suc (suc zero)) n k h e = grind (arith, e)
hundredths_shifted c (suc (suc (suc p))) n k h e = absurd (omega arith)

at_most_two :
    (c p n q : ℕ) → p ≤ 2 → q ≤ 2 → n * 10 ^ p ≡ c * 10 ^ q → n * 10 ^ (2 - q) ≡ c * 10 ^ (2 - p)
at_most_two c zero n zero h k e = omega (arith, e)
at_most_two c zero n (suc zero) h k e = omega (arith, e)
at_most_two c zero n (suc (suc zero)) h k e = omega (arith, e)
at_most_two c (suc zero) n zero h k e = omega (arith, e)
at_most_two c (suc zero) n (suc zero) h k e = omega (arith, e)
at_most_two c (suc zero) n (suc (suc zero)) h k e = omega (arith, e)
at_most_two c (suc (suc zero)) n zero h k e = omega (arith, e)
at_most_two c (suc (suc zero)) n (suc zero) h k e = omega (arith, e)
at_most_two c (suc (suc zero)) n (suc (suc zero)) h k e = omega (arith, e)
at_most_two c (suc (suc (suc p))) n q h k e = absurd (omega arith)
at_most_two c zero n (suc (suc (suc q))) h k e = absurd (omega arith)
at_most_two c (suc zero) n (suc (suc (suc q))) h k e = absurd (omega arith)
at_most_two c (suc (suc zero)) n (suc (suc (suc q))) h k e = absurd (omega arith)

quantize-value :
    (c p n q : ℕ)
    → p ≤ 2
    → n * 10 ^ p ≡ c * 10 ^ q
    → quantize (record { coefficient = n; places = q }) ≡ c * 10 ^ (2 - p)
unfolding quantize
quantize-value c p n zero h e = at_most_two c p n zero h (omega arith) e
quantize-value c p n (suc zero) h e = at_most_two c p n (suc zero) h (omega arith) e
quantize-value c p n (suc (suc zero)) h e = at_most_two c p n (suc (suc zero)) h (omega arith) e
quantize-value c p n (suc (suc (suc k))) h e =
    let e' : n * 10 ^ p ≡ c * (10 ^ suc k * 10 * 10) =
      rw (pow-suc 10 (suc (suc k)), pow-suc 10 (suc k)) at e in
    let f = hundredths_shifted c p n (10 ^ suc k) h e' in
    let long : leb (suc (suc (suc k))) 2 ≡ false = ground arith in
    let less : suc (suc (suc k)) - 2 ≡ suc k = omega arith in
    rw (long, less, f)
      (round_half_even-exact (c * 10 ^ (2 - p)) (10 ^ suc k) (one-le-pow (suc k) 10 (omega arith)))

inserted-eq-ok :
    (r : Outcome User) (d : Product) (m : Mongo) {out : ProductOut}
    → (inserted r d m).0 ≡ ok out
    → ((inserted r d m).1 ≡ record m { products = read_back d ∷ m.products })
      × (product_out d ≡ ok out)
inserted-eq-ok (raised x) d m h = cc
inserted-eq-ok (ok u) d m h = (refl, h)

get_product-at :
    (ids : ObjectIds) (i oid : Text) (m : Mongo) (d : Product)
    → ids.parse i ≡ some oid
    → find_product oid m.products ≡ some d
    → get_product ids i m ≡ product_out d
unfolding get_product
get_product-at ids i oid m d h k = ground (arith, h, k)

-- The document of a valid body, as it is read back, has the price that was entered.
module _ (f : Floats) (oid : Text) (now : ℕ) (b : ProductCreate)
    (valid : validate_product b ≡ true) where
  exact_price : quantize (f.float b.price) ≡ hundredths b.price
  exact_price =
      let small : b.price.places ≤ 2 = unfold validate_product in ground (arith, valid) in
      let fits : hundredths b.price < 10 ^ 10 = unfold validate_product in ground (arith, valid) in
      let digits = few_digits b.price.coefficient b.price.places small fits in
      quantize-value b.price.coefficient b.price.places (f.float b.price).coefficient
        (f.float b.price).places small (f.float_exact b.price digits small)

  document_price : price_of (read_back (new_product f oid now b)) ≡ some (hundredths b.price)
  unfolding new_product read_back
  document_price = rw exact_price refl

  document_out :
      {out : ProductOut}
      → product_out (new_product f oid now b) ≡ ok out
      → product_out (read_back (new_product f oid now b))
        ≡ ok (record out {
          created_at = some (record { instant = now - now % 1000; is_aware = false });
          updated_at = some (record { instant = now - now % 1000; is_aware = false });
        })
  unfolding new_product read_back product_out
  document_out h = ground (arith, h)

-- A product that staff create from a valid body, under an id that parses as itself, can be read at once
-- under that id, with its times cut to milliseconds and without a time zone; and an order that is then
-- placed has for it only lines with its name and exactly the price that was entered, in hundredths,
-- whatever float it was stored as.
pub create_product-IsCharged :
    (f : Floats) (ids : ObjectIds) (oid : Text) (now : ℕ) (b : ProductCreate) (current : User)
    (m : Mongo) (e : Engine) (logged : Bool) (user_id : ℕ) (basket : OrderCreate) (s : Db)
    {out : ProductOut} {o : Order}
    → validate_product b ≡ true
    → ids.parse oid ≡ some oid
    → (create_product f oid now b current m).0 ≡ ok out
    → (create_order e ids logged user_id basket s (create_product f oid now b current m).1).0 ≡ ok o
    → (get_product ids oid (create_product f oid now b current m).1
        ≡ ok (record out {
          created_at = some (record { instant = now - now % 1000; is_aware = false });
          updated_at = some (record { instant = now - now % 1000; is_aware = false });
        }))
      × All (IsCharged oid b.name (hundredths b.price)) o.items
unfolding create_product new_product read_back
create_product-IsCharged f ids oid now b current m e logged user_id basket s {out} {o} valid parsed
      h placed =
    let document = new_product f oid now b in
    let d = read_back document in
    let (next, built) = inserted-eq-ok (require_role (staff ∷ admin ∷ []) current) document m h in
    let receipt =
      create_order-receipt e ids logged user_id basket s (record m { products = d ∷ m.products })
        (rw next at placed) in
    (
      rw next (
          get_product-at ids oid oid (record m { products = d ∷ m.products }) d parsed
            (find_product-head d m.products)
          ∙ document_out f oid now b valid built),
      lines-AllCharged ids d b.name (hundredths b.price) parsed refl
          (document_price f oid now b valid) m.products basket.items o.items receipt.0,
    )
