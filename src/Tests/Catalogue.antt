-- ===== src/Tests/Catalogue.antt =====
-- The theorems on lists, privacy, products, the seed and the traffic script, at the small world.
use restaurant_reservation_s.Prelude.{
  ◌≡◌, ◌≤◌, ◌++◌, refl, true, false, List, [], ◌∷◌, none, some, arith, ◌⊎◌, length, any, All,
}
use mathlib.Core.List.{Perm}
use restaurant_reservation_s.Http.{ok, raised, raiseload_error, status_code}
use restaurant_reservation_s.Names.{Text, rebuilt_name, present, join}
use restaurant_reservation_s.Models.User.{User, staff}
use restaurant_reservation_s.Models.Reservation.{Reservation, conflicts}
use restaurant_reservation_s.Database.{Db, find_restaurant, find_reservation, find_order, find_user}
use restaurant_reservation_s.Migration.Phase.{legacy, dual_write, read_new}
use restaurant_reservation_s.Reservations.Service.{new_reservation}
use restaurant_reservation_s.Reservations.Store.{select_reservation}
use restaurant_reservation_s.Reservations.Etag.{etag}
use restaurant_reservation_s.Reservations.Routes.{out, get_reservation, load_owned, respond, to_out}
use restaurant_reservation_s.Reservations.Listing.{Booking, select_my_bookings}
use restaurant_reservation_s.Reservations.Race.{get_reservation-phase_change}
use restaurant_reservation_s.Reservations.Newest.{
  shown_bookings, IsNewestFirst, select_my_bookings-newest,
}
use restaurant_reservation_s.Orders.Routes.{get_order}
use restaurant_reservation_s.Orders.Catalogue.{OrderCreate, find_product}
use restaurant_reservation_s.Orders.Placing.{
  create_order, place_order, check_reservation, is_malformed, names_product, found_products,
  check_products, order_item, order_items, add_up, insert_order, save_order, new_order, amounts_fit,
  texts_fit, quantity_check, order_currency,
}
use restaurant_reservation_s.Orders.Money.{quantize}
use restaurant_reservation_s.Models.Order.{Order, placed}
use restaurant_reservation_s.Products.Lines.{IsCharged}
use restaurant_reservation_s.Security.{require_role}
use restaurant_reservation_s.Users.{get_user}
use restaurant_reservation_s.Privacy.{customer_reads_own}
use restaurant_reservation_s.Products.{
  ProductCreate, Floats, ProductOut, drink, validate_product, product_out, create_product,
  new_product, read_back, get_product,
}
use restaurant_reservation_s.Products.Pricing.{create_product-IsCharged}
use restaurant_reservation_s.Traffic.{booking_payload, slot_start, one_won}
use restaurant_reservation_s.Traffic.Windows.{slot_start-apart}
use restaurant_reservation_s.Traffic.Burst.{fire, fire-one_won}
use restaurant_reservation_s.Tests.World.{engine, user, table, booking, order, before, ana, request}
use restaurant_reservation_s.Tests.Reservations.{legacy-Fits, request-IsAcceptable}
use restaurant_reservation_s.Tests.Accounts.{mongo, ids}

select_my_bookings-newest_example :
    (rows rest : List Booking) × (select_my_bookings legacy 7 1 before ≡ ok rows)
    × Perm (rows ++ rest) (shown_bookings 7 before.restaurants before.reservations)
    × IsNewestFirst (rows ++ rest)
    × (length rows ≤ 1)
    × ((rest ≡ []) ⊎ (length rows ≡ 1))
select_my_bookings-newest_example = select_my_bookings-newest legacy 7 1 before legacy-Fits

-- The phase changes to read_new while the booking is read.
abbrev split_booking : Reservation
split_booking = record booking {
  first_name = some (b'A' ∷ b'n' ∷ b'a' ∷ []);
  last_name = some (b'L' ∷ b'i' ∷ b'm' ∷ []);
}

abbrev split_db : Db
split_db = record before { reservations = split_booking ∷ [] }

split_booking-found : find_reservation 1 split_db.reservations ≡ some split_booking
unfolding find_reservation
split_booking-found = refl

split_booking-readable : to_out read_new read_new split_booking ≡ ok (out split_booking ana)
unfolding to_out rebuilt_name present join
split_booking-readable = refl

get_reservation-phase_change_example :
    (get_reservation legacy read_new 1 user split_db ≡ (raised raiseload_error, split_db))
    × (status_code (get_reservation legacy read_new 1 user split_db).0 ≡ 500)
get_reservation-phase_change_example =
    get_reservation-phase_change legacy read_new 1 user split_db split_booking ana legacy-Fits
      split_booking-found refl split_booking-readable

booking-read : (get_reservation legacy legacy 1 user before).0 ≡ ok (out booking ana, etag booking)
unfolding get_reservation load_owned respond to_out select_reservation find_reservation
booking-read = refl

order-read : (get_order 4 user before).0 ≡ ok order
unfolding get_order find_order
order-read = refl

user-read : (get_user 7 user before).0 ≡ ok user
unfolding get_user find_user
user-read = refl

customer_reads_own_example :
    ((out booking ana).user_id ≡ user.id) × (order.user_id ≡ user.id) × (user.id ≡ user.id)
customer_reads_own_example =
    customer_reads_own user legacy legacy 1 4 7 before before before refl booking-read order-read
      user-read

slot_start-apart_example :
    conflicts
      (new_reservation legacy 7 (booking_payload 1 3 (slot_start 0 9) ana))
      (new_reservation dual_write 7 (booking_payload 1 3 (slot_start 0 10) ana))
    ≡ false
slot_start-apart_example = slot_start-apart legacy dual_write 7 1 3 0 9 10 ana ana (omega arith)

request-free : any (conflicts (new_reservation legacy 7 request)) before.reservations ≡ false
unfolding conflicts new_reservation
request-free = refl

fire-one_won_example :
    one_won 3 (fire (engine ∷ engine ∷ engine ∷ []) legacy user request before) ≡ true
fire-one_won_example =
    fire-one_won legacy user request table engine (engine ∷ engine ∷ []) before legacy-Fits
      request-IsAcceptable request-free

-- Floats that print the decimal they were made from.
abbrev same_floats : Floats
same_floats = record { float = λ x. x; float_exact = λ x h k. refl }

abbrev tea : ProductCreate
tea = record {
  restaurant_id = 1;
  name = ana;
  description = none;
  category = drink;
  price = record { coefficient = 455; places = 1 };
  currency = b'T' ∷ b'H' ∷ b'B' ∷ [];
  is_available = true;
  attributes = 0;
}

tea-valid : validate_product tea ≡ true
unfolding validate_product
tea-valid = refl

abbrev waiter : User
waiter = record user { role = staff }

abbrev tea_id : Text
tea_id = b'a' ∷ []

abbrev tea_out : ProductOut
tea_out = record {
  id = tea_id;
  restaurant_id = 1;
  name = ana;
  description = none;
  category = b'D' ∷ b'r' ∷ b'i' ∷ b'n' ∷ b'k' ∷ [];
  price = record { coefficient = 455; places = 1 };
  currency = b'T' ∷ b'H' ∷ b'B' ∷ [];
  is_available = true;
  attributes = some 0;
  created_at = some (record { instant = 5050; is_aware = true });
  updated_at = some (record { instant = 5050; is_aware = true });
}

tea-created : (create_product same_floats tea_id 5050 tea waiter mongo).0 ≡ ok tea_out
unfolding create_product new_product product_out require_role
tea-created = refl

abbrev tea_basket : OrderCreate
tea_basket = record {
  restaurant_id = 1;
  reservation_id = none;
  items = record { product_id = tea_id; quantity = 3; selected_attributes = none } ∷ [];
}

abbrev tea_order : Order
tea_order = record {
  id = 6;
  user_id = 7;
  restaurant_id = 1;
  reservation_id = none;
  status = placed;
  total_amount = 13650;
  currency = b'T' ∷ b'H' ∷ b'B' ∷ [];
  items =
      record {
        product_id = tea_id;
        product_name = ana;
        unit_price = 4550;
        quantity = 3;
        selected_attributes = none;
      }
      ∷ [];
  created_at = 1000;
}

tea-placed :
    (create_order engine ids true 7 tea_basket before
      (create_product same_floats tea_id 5050 tea waiter mongo).1).0
    ≡ ok tea_order
unfolding create_product new_product read_back product_out require_role create_order place_order
    find_restaurant check_reservation is_malformed names_product found_products check_products
    find_product order_item order_items quantize add_up amounts_fit texts_fit quantity_check
    insert_order save_order new_order order_currency
tea-placed = refl

-- 45.5 is 4550 hundredths.
create_product-IsCharged_example :
    (get_product ids tea_id (create_product same_floats tea_id 5050 tea waiter mongo).1
      ≡ ok (record tea_out {
        created_at = some (record { instant = 5000; is_aware = false });
        updated_at = some (record { instant = 5000; is_aware = false });
      }))
    × All (IsCharged tea_id ana 4550) tea_order.items
create_product-IsCharged_example =
    create_product-IsCharged same_floats ids tea_id 5050 tea waiter mongo engine true 7 tea_basket
      before tea-valid refl tea-created tea-placed
