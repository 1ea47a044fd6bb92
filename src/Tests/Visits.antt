-- ===== src/Tests/Visits.antt =====
-- The theorems on the load test, at the small world.
use restaurant_reservation_s.Prelude.{
  some, none, ℕ, ◌+◌, ◌*◌, List, true, ◌⊎◌, ◌≡◌, refl, [], ◌∷◌, arith,
}
use restaurant_reservation_s.Database.{find_table, find_user, find_restaurant}
use restaurant_reservation_s.Migration.Phase.{legacy}
use restaurant_reservation_s.Http.{ok}
use restaurant_reservation_s.Reservations.Store.{is_some}
use restaurant_reservation_s.Models.Reservation.{Reservation, cancelled}
use restaurant_reservation_s.Traffic.{minute, hour}
use restaurant_reservation_s.LoadTest.{Customer, book, edit_booking, cancel_booking}
use restaurant_reservation_s.LoadTest.Noted.{IsNoted}
use restaurant_reservation_s.LoadTest.Slots.{AllBusy}
use restaurant_reservation_s.LoadTest.Edits.{tasks-served}
use restaurant_reservation_s.Reservations.Edited.{InPlace}
use restaurant_reservation_s.Reservations.Changing.{MayChange}
use restaurant_reservation_s.Reservations.Routes.{to_out, out}
use restaurant_reservation_s.LoadTest.Booking.{HasTableKeys, IsLoadBooking, book-served}
use restaurant_reservation_s.Tests.World.{ana, engine, user, booking, before}
use restaurant_reservation_s.Tests.Reservations.{
  before-IsValid, booking-found, booking-fine, legacy-Fits,
}

-- A customer of the load test, whose next slot starts in the middle of the booking.
abbrev load_customer : Customer
load_customer = record { next_slot = 150; bookings = [] }

before-HasTableKeys : HasTableKeys before
unfolding find_table
before-HasTableKeys = (refl, tt)

user_there : is_some (find_user 7 before.users) ≡ true
unfolding find_user
user_there = refl

restaurant_there : is_some (find_restaurant 1 before.restaurants) ≡ true
unfolding find_restaurant
restaurant_there = refl

book-served_example :
    (AllBusy 1 150 (150 + 90 * minute) before
      × (book engine legacy user 1 load_customer before ≡ record {
        code = none;
        customer = record load_customer { next_slot = 150 + 2 * hour };
        db = before;
      }))
    ⊎ ((row : Reservation) × (noted : List (ℕ × ℕ)) × (book engine legacy user 1 load_customer
            before
          ≡ record {
            code = some 201;
            customer = record { next_slot = 150 + 2 * hour; bookings = noted };
            db = record before { reservations = row ∷ before.reservations };
          })
        × IsLoadBooking engine user 1 150 before row
        × IsNoted row.id row.version [] noted)
book-served_example =
    book-served engine legacy user 1 load_customer before legacy-Fits before-HasTableKeys user_there
      restaurant_there

booking-readable : to_out legacy legacy booking ≡ ok (out booking ana)
unfolding to_out
booking-readable = refl

booking-MayChange : MayChange engine legacy user 1 before booking ana
booking-MayChange = record {
  fits = legacy-Fits;
  valid = before-IsValid;
  found = booking-found;
  fine = booking-fine;
  readable = booking-readable;
}

-- The customer holds an old version of the booking when he edits it, and the current one, as the last
-- of three, when he cancels it.
abbrev editing : Customer
editing = record { next_slot = 0; bookings = (1, 4) ∷ [] }

abbrev dropping : Customer
dropping = record { next_slot = 0; bookings = (8, 1) ∷ (9, 1) ∷ (1, 5) ∷ [] }

tasks-served_example :
    ((noted : List (ℕ × ℕ)) × (after : List Reservation) × (edit_booking engine legacy user 1 2
          editing before
        ≡ record {
          code = some 200;
          customer = record editing { bookings = noted };
          db = record before { reservations = after };
        })
      × IsNoted 1 (engine.next_xid before.reservations) ((1, 4) ∷ []) noted
      × InPlace booking
          (record booking { party_size = 2; version = engine.next_xid before.reservations })
          before.reservations
          after)
    × ((after : List Reservation) × (cancel_booking engine legacy user dropping before ≡ record {
      code = some 200;
      customer = record dropping { bookings = (8, 1) ∷ (9, 1) ∷ [] };
      db = record before { reservations = after };
    })
        × InPlace booking
            (record booking { status = cancelled; version = engine.next_xid before.reservations })
            before.reservations
            after)
tasks-served_example =
    tasks-served booking-MayChange 2 editing dropping ((8, 1) ∷ (9, 1) ∷ []) refl refl refl refl
      refl (omega arith)
