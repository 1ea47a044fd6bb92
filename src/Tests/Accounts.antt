-- ===== src/Tests/Accounts.antt =====
-- The theorems on accounts, tokens and placing an order, at the small world.
use restaurant_reservation_s.Prelude.{
  ◌⊎◌, ℕ, zero, suc, ◌<◌, ◌≡◌, refl, true, false, List, [], ◌∷◌, Option, none, some, arith, All,
  text_eq, ltb, leb, ◌&&◌, ◌≤◌, if◌then◌else◌,
}
use restaurant_reservation_s.Http.{ok, raised, Exception}
use restaurant_reservation_s.Names.{Text}
use restaurant_reservation_s.Models.User.{User, UserRole, customer, staff, admin}
use restaurant_reservation_s.Models.Order.{Order, OrderItem, placed}
use restaurant_reservation_s.Database.{find_restaurant, find_reservation}
use restaurant_reservation_s.Security.{Claims, Crypto, TokenResponse, create_access_token}
use restaurant_reservation_s.Users.{UserCreate, create_user}
use restaurant_reservation_s.Users.Accounts.{
  HasUniqueEmails, start, signup, Accounts-HasUniqueEmails,
}
use restaurant_reservation_s.Orders.Money.{quantize}
use restaurant_reservation_s.Orders.Catalogue.{Product, Mongo, OrderCreate, ObjectIds, find_product}
use restaurant_reservation_s.Orders.Placing.{
  create_order, place_order, check_reservation, is_malformed, names_product, found_products,
  check_products, order_item, order_items, add_up, insert_order, save_order, new_order, amounts_fit,
  texts_fit, quantity_check, order_currency,
}
use restaurant_reservation_s.Orders.Receipt.{
  AreLinesOf, IsOwn, IsSold, line_total, create_order-receipt, create_order-atomic,
}
use restaurant_reservation_s.Tests.World.{engine, user, before, ana, email}

text_eq-comm : (a b : Text) → text_eq a b ≡ text_eq b a
text_eq-comm [] [] = refl
text_eq-comm [] (d ∷ b) = refl
text_eq-comm (c ∷ a) [] = refl
text_eq-comm (c ∷ a) (d ∷ b) = ground (arith, text_eq-comm a b)

abbrev hash : Text → Text
hash p = p

abbrev ben : UserCreate
ben = record { email = b'b' ∷ []; password = b'p' ∷ []; full_name = ana; phone = none }

Accounts-HasUniqueEmails_example :
    HasUniqueEmails text_eq text_eq-comm (create_user text_eq engine hash ben before).1.users
Accounts-HasUniqueEmails_example =
    Accounts-HasUniqueEmails text_eq text_eq-comm before
      (create_user text_eq engine hash ben before).1 (tt, tt, tt) (signup engine hash ben start)

-- A token is the list of the four numbers of its payload.
abbrev pub role_number : UserRole → ℕ
role_number customer = 0
role_number staff = 1
role_number admin = 2

abbrev pub number_role : ℕ → UserRole
number_role zero = customer
number_role (suc zero) = staff
number_role (suc (suc n)) = admin

abbrev pub write_token : Claims → Text
write_token k = k.sub ∷ role_number k.role ∷ k.iat ∷ k.exp ∷ []

abbrev pub read_token : Text → ℕ → Option Claims
read_token (i ∷ r ∷ t ∷ x ∷ []) now =
    if leb t now && ltb now x
    then some (record { sub = i; role = number_role r; iat = t; exp = x })
    else none
read_token _ now = none

number_role-role_number : (r : UserRole) → number_role (role_number r) ≡ r
number_role-role_number customer = refl
number_role-role_number staff = refl
number_role-role_number admin = refl

read_token-write_token :
    (k : Claims) (now : ℕ) → k.iat ≤ now → now < k.exp → read_token (write_token k) now ≡ some k
read_token-write_token k now issued h = ground (arith, number_role-role_number k.role)

abbrev crypto : Crypto
crypto = record {
  check = text_eq;
  encode = write_token;
  decode = read_token;
  decode-encode = read_token-write_token;
}

abbrev token : TokenResponse
token = record { access_token = create_access_token crypto 1000 15 user; expires_in = 900 }

abbrev pub product_id : Text
product_id =
    b'6' ∷ b'5' ∷ b'6' ∷ b'5' ∷ b'6' ∷ b'5' ∷ b'6' ∷ b'5' ∷ b'6' ∷ b'5' ∷ b'6' ∷ b'5' ∷ b'6' ∷ b'5'
    ∷ b'6' ∷ b'5' ∷ b'6' ∷ b'5' ∷ b'6' ∷ b'5' ∷ b'6' ∷ b'5' ∷ b'6' ∷ b'5' ∷ []

abbrev pub product : Product
product = record {
  id = product_id;
  restaurant_id = some 1;
  name = some ana;
  price = some (record { coefficient = 1255; places = 1 });
  currency = none;
  is_available = some true;
  category = none;
  description = none;
  attributes = none;
  created_at = none;
  updated_at = none;
}

abbrev pub mongo : Mongo
mongo = record { products = product ∷ []; user_telemetry = [] }

abbrev pub ids : ObjectIds
ids = record { parse = λ s. some s; parse_idem = λ s t h. refl }

abbrev basket : OrderCreate
basket = record {
  restaurant_id = 1;
  reservation_id = some 1;
  items = record { product_id = product_id; quantity = 2; selected_attributes = none } ∷ [];
}

abbrev basket_lines : List OrderItem
basket_lines =
    record {
      product_id = product_id;
      product_name = ana;
      unit_price = 12550;
      quantity = 2;
      selected_attributes = none;
    }
    ∷ []

abbrev basket_order : Order
basket_order = record {
  id = 6;
  user_id = 7;
  restaurant_id = 1;
  reservation_id = some 1;
  status = placed;
  total_amount = 25100;
  currency = b'T' ∷ b'H' ∷ b'B' ∷ [];
  items = basket_lines;
  created_at = 1000;
}

basket-placed : (create_order engine ids true 7 basket before mongo).0 ≡ ok basket_order
unfolding create_order place_order find_restaurant check_reservation find_reservation is_malformed
    names_product found_products check_products find_product order_item order_items quantize add_up
    amounts_fit texts_fit quantity_check insert_order save_order new_order order_currency
basket-placed = refl

create_order-receipt_example :
    AreLinesOf (found_products ids basket.items mongo.products) basket.items basket_lines
    × All (IsSold 1) (found_products ids basket.items mongo.products)
    × (25100 ≡ line_total basket_lines)
    × IsOwn before 7 (some 1)
    × ((create_order engine ids true 7 basket before mongo).1
        ≡ record before { orders = basket_order ∷ before.orders })
    × ((create_order engine ids true 7 basket before mongo).2 ≡ record mongo {
      user_telemetry =
          record {
            user_id = 7;
            order_id = 6;
            restaurant_id = 1;
            item_count = 1;
            total_amount = 25100;
          }
          ∷ mongo.user_telemetry;
    })
create_order-receipt_example =
    create_order-receipt engine ids true 7 basket before mongo basket-placed

create_order-atomic_example :
    (((o : Order) × ((create_order engine ids true 8 basket before mongo).0 ≡ ok o))
      ⊎ ((x : Exception) × (create_order engine ids true 8 basket before mongo
            ≡ (raised x, before, mongo))))
    × ((create_order engine ids false 8 basket before mongo).0
        ≡ (create_order engine ids true 8 basket before mongo).0)
    × ((create_order engine ids false 8 basket before mongo).1
        ≡ (create_order engine ids true 8 basket before mongo).1)
create_order-atomic_example = create_order-atomic engine ids true 8 basket before mongo
