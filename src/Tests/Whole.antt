-- ===== src/Tests/Whole.antt =====
-- The theorems on sequences of requests and commits, at the small world.
use restaurant_reservation_s.Prelude.{
  true, List, All, false, some, ◌<◌, ◌≡◌, ◌≤◌, refl, [], ◌∷◌, arith, ◌==◌,
}
use restaurant_reservation_s.Database.{Db, find_table, find_user, find_restaurant, find_reservation}
use restaurant_reservation_s.Migration.Phase.{legacy, dual_write, read_new}
use restaurant_reservation_s.Migration.Schema.{schema_state, is_allowed}
use restaurant_reservation_s.Migration.Revisions.{upgrade_0002}
use restaurant_reservation_s.Reservations.Routes
use restaurant_reservation_s.Reservations.Calendar.{
  Post, run_posts, book_all, calendar_of, run_posts-book_all,
}
use restaurant_reservation_s.Rollout.Steps
use restaurant_reservation_s.Rollout.Steps.{History, creates, fills}
use restaurant_reservation_s.Rollout.Finish.{live-backfill_completes}
use restaurant_reservation_s.Models.Reservation.{Reservation}
use restaurant_reservation_s.Rollout.Live.{live-opens_read_new}
use restaurant_reservation_s.Backfill.{run_backfill, max_passes, filled_row, awaiting, verify, fill}
use restaurant_reservation_s.Api
use restaurant_reservation_s.Api.{Requests, books, cancels}
use restaurant_reservation_s.Api.Integrity.{
  IsConsistent, RestaurantRefs, ReservationRefs, OrderRefs,
}
use restaurant_reservation_s.Api.Consistency.{Requests-IsConsistent}
use restaurant_reservation_s.Reservations.Routes.{to_out, out}
use restaurant_reservation_s.Tests.World.{
  engine, user, restaurant, table, booking, cancelled_booking, order, before, request,
}
use restaurant_reservation_s.Tests.Reservations.{legacy-Fits, request-IsAcceptable}
use restaurant_reservation_s.Tests.Progress.{
  stamp, white, white-space, white-is_space, expanded, expanded-IsClean, ana-join, ana-fits,
}

-- A request arrives, and then a batch fills the booking of the table.
abbrev requested : Db
requested = (Routes.create_reservation engine dual_write user request expanded).1

abbrev batched : Db
batched = record requested { reservations = fill 30 (booking ∷ []) requested.reservations }

batched-History : History expanded batched
batched-History =
    Steps.next
      (Steps.next Steps.here (creates engine dual_write user request refl (ana-join, ana-fits)))
      (fills 30 (booking ∷ []))

-- The cancelled booking still awaits its names, so that the gate of read_new stays closed.
live-opens_read_new_example :
    (awaiting batched.reservations ≤ awaiting expanded.reservations)
    × (verify white batched.reservations ≡ (awaiting batched.reservations == 0))
    × (is_allowed read_new (schema_state white batched) ≡ (awaiting batched.reservations == 0))
unfolding upgrade_0002
live-opens_read_new_example =
    live-opens_read_new white white-space white-is_space expanded batched expanded-IsClean
      batched-History refl refl

-- One batch has filled the booking of the table; a run of the backfill does the rest.
abbrev half_filled : Db
half_filled = record expanded { reservations = fill 30 (booking ∷ []) expanded.reservations }

half_filled-History : History expanded half_filled
half_filled-History = Steps.next Steps.here (fills 30 (booking ∷ []))

positive_ids : All (λ r. 0 < r.id) half_filled.reservations
unfolding fill upgrade_0002 filled_row
positive_ids = (omega arith, (omega arith, tt))

live-backfill_completes_example :
    (after : List Reservation) × (run_backfill max_passes
        (λ k m i. false)
        stamp
        1000
        1
        0
        0
        half_filled.reservations
      ≡ some (awaiting half_filled.reservations, after))
    × ((u : Db)
        → History (record half_filled { reservations = after }) u
        → (verify white u.reservations ≡ true)
          × (is_allowed read_new (schema_state white u) ≡ true))
unfolding upgrade_0002
live-backfill_completes_example =
    live-backfill_completes white white-space white-is_space expanded half_filled stamp 999
      expanded-IsClean half_filled-History refl refl positive_ids

-- Two requests for the same slot.
abbrev post : Post
post = record { engine = engine; user_id = 7; body = request; table = table }

run_posts-book_all_example :
    ((run_posts legacy (post ∷ post ∷ []) before).0
      ≡ (book_all legacy (post ∷ post ∷ []) (calendar_of before)).0)
    × (calendar_of (run_posts legacy (post ∷ post ∷ []) before).1
        ≡ (book_all legacy (post ∷ post ∷ []) (calendar_of before)).1)
run_posts-book_all_example =
    run_posts-book_all legacy (post ∷ post ∷ []) before legacy-Fits
      (request-IsAcceptable, (request-IsAcceptable, tt))

-- Its owner has an account, and its order has no items and costs nothing.
abbrev whole : Db
whole = record before {
  restaurants = record restaurant { owner_id = 7 } ∷ [];
  orders = record order { total_amount = 0 } ∷ [];
}

booking-refs : ReservationRefs whole booking
unfolding find_table find_user find_restaurant
booking-refs = record {
  user = refl;
  restaurant = refl;
  table = table;
  table_found = refl;
  same_restaurant = refl;
}

cancelled_booking-refs : ReservationRefs whole cancelled_booking
unfolding find_table find_user find_restaurant
cancelled_booking-refs = record {
  user = refl;
  restaurant = refl;
  table = table;
  table_found = refl;
  same_restaurant = refl;
}

order-refs : OrderRefs whole (record order { total_amount = 0 })
unfolding find_user find_restaurant find_reservation
order-refs = record {
  user = refl;
  restaurant = refl;
  reservation = (booking, refl, refl);
  total = refl;
}

restaurant-refs : RestaurantRefs whole (record restaurant { owner_id = 7 })
unfolding find_user
restaurant-refs = record {
  owner = refl;
  price_at_least_one = omega arith;
  price_at_most_four = omega arith;
}

whole-IsConsistent : IsConsistent whole
whole-IsConsistent = record {
  restaurants = (restaurant-refs, tt);
  reservations = (booking-refs, (cancelled_booking-refs, tt));
  orders = (order-refs, tt);
}

abbrev later : Db
later =
    (Routes.finish_cancel engine legacy booking
      (Routes.create_reservation engine legacy user request whole).1).1

later-Requests : Requests whole later
later-Requests =
    Api.next (Api.next Api.here (books engine legacy user request)) (cancels engine legacy booking)

Requests-IsConsistent_example : IsConsistent later
Requests-IsConsistent_example = Requests-IsConsistent whole later whole-IsConsistent later-Requests
