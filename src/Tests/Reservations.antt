-- ===== src/Tests/Reservations.antt =====
-- The theorems on reservations, at the small world.
use restaurant_reservation_s.Prelude.{◌≡◌, refl, true, false, [], ◌∷◌, none, some, arith, any, ◌⊎◌}
use restaurant_reservation_s.Http.{ok, raised, http_exception, changed_concurrently, status_code}
use restaurant_reservation_s.Models.Reservation.{
  Reservation, confirmed, cancelled, conflicts, party_check, time_order_check,
}
use restaurant_reservation_s.Database.{Db, find_table, find_user, find_restaurant, find_reservation}
use restaurant_reservation_s.Migration.Phase.{legacy}
use restaurant_reservation_s.Migration.Fit.{Fits}
use restaurant_reservation_s.Reservations.Requests.{ReservationUpdate}
use restaurant_reservation_s.Reservations.Store.{
  replace, others, update_outcome, update_row, row_violations, booking_violations, writes_missing,
}
use restaurant_reservation_s.Reservations.Service
use restaurant_reservation_s.Reservations.Service.{new_reservation, update_changes, cancel_changes}
use restaurant_reservation_s.Reservations.Routes
use restaurant_reservation_s.Reservations.Cases.{with_row}
use restaurant_reservation_s.Reservations.Inversion.{stored}
use restaurant_reservation_s.Reservations.Booking.{any-IsFree}
use restaurant_reservation_s.Reservations.Invariant.{
  IsSound, IsValid, Reach, here, next, creates, Reach-IsValid,
}
use restaurant_reservation_s.Reservations.Outcomes.{
  IsAcceptable, create_reservation-conflict_or_stored,
}
use restaurant_reservation_s.Reservations.Edits.{update_reservation-no_lost_update}
use restaurant_reservation_s.Reservations.Reopening.{
  confirming, cancel-frees_slot, update_reservation-reopen_conflict,
}
use restaurant_reservation_s.Restaurants.{slot, taken}
use restaurant_reservation_s.Restaurants.Availability.{slot-create_reservation}
use restaurant_reservation_s.Tests.World.{
  engine, user, table, booking, cancelled_booking, before, request,
}

booking-IsSound : IsSound booking
booking-IsSound = record {
  party_at_least_one = omega arith;
  party_at_most_twenty = omega arith;
  ends_later = omega arith;
}

cancelled_booking-IsSound : IsSound cancelled_booking
cancelled_booking-IsSound = record {
  party_at_least_one = omega arith;
  party_at_most_twenty = omega arith;
  ends_later = omega arith;
}

booking-conflicts : any (conflicts booking) (cancelled_booking ∷ []) ≡ false
unfolding conflicts
booking-conflicts = refl

pub before-IsValid : IsValid before
before-IsValid = record {
  separate = (any-IsFree booking (cancelled_booking ∷ []) booking-conflicts, (tt, tt));
  unique = ((omega arith, tt), (tt, tt));
  sound = (booking-IsSound, (cancelled_booking-IsSound, tt));
}

abbrev after_request : Db
after_request = (Routes.create_reservation engine legacy user request before).1

after_request-Reach : Reach before after_request
after_request-Reach = next here (creates engine legacy user request)

Reach-IsValid_example : IsValid after_request
Reach-IsValid_example = Reach-IsValid before after_request before-IsValid after_request-Reach

pub legacy-Fits : Fits legacy before.columns
legacy-Fits = record {
  writes = refl;
  reads = refl;
  guest_name_filled = refl;
  first_name_filled = refl;
  last_name_filled = refl;
}

pub request-IsAcceptable : IsAcceptable before 7 request table
unfolding find_table find_user find_restaurant
request-IsAcceptable = record {
  table_found = refl;
  same_restaurant = refl;
  active = refl;
  seats = omega arith;
  user_exists = refl;
  restaurant_exists = refl;
  someone_comes = omega arith;
  not_too_many = omega arith;
  window = omega arith;
}

abbrev request_row : Reservation
request_row = new_reservation legacy 7 request

create_reservation-conflict_or_stored_example :
    Service.create_reservation engine legacy 7 request before
    ≡ (ok (stored engine before request_row), with_row before (stored engine before request_row))
unfolding conflicts new_reservation
create_reservation-conflict_or_stored_example =
    create_reservation-conflict_or_stored engine legacy 7 request before table legacy-Fits
      request-IsAcceptable

slot-create_reservation_example :
    (Service.create_reservation engine legacy 7 request before).0
    ≡ ok (stored engine before request_row)
unfolding slot taken conflicts
slot-create_reservation_example =
    slot-create_reservation engine legacy 7 request before table legacy-Fits request-IsAcceptable

-- The engine sends every UPDATE. A PATCH reads the booking; somebody else books another hour.
abbrev renaming : ReservationUpdate
renaming = record { guest_name = none; party_size = some 4; status = none }

pub booking-found : find_reservation booking.id before.reservations ≡ some booking
unfolding find_reservation
booking-found = refl

update_reservation-no_lost_update_example :
    (find_reservation booking.id after_request.reservations ≡ some booking)
    ⊎ (Service.update_reservation engine legacy booking renaming after_request
        ≡ (raised (http_exception 409 changed_concurrently), after_request))
update_reservation-no_lost_update_example =
    update_reservation-no_lost_update engine legacy booking renaming before after_request
      booking-found after_request-Reach refl

abbrev cancelled_row : Reservation
cancelled_row = record booking { status = cancelled; version = 14 }

cancelled_row-stored : update_outcome engine before booking cancel_changes ≡ ok cancelled_row
unfolding update_outcome update_row find_reservation row_violations booking_violations
    writes_missing conflicts others party_check time_order_check
cancelled_row-stored = refl

cancel-frees_slot_example :
    any (conflicts booking) (replace cancelled_row before.reservations)
    ≡ any (conflicts booking) (others booking.id before.reservations)
cancel-frees_slot_example =
    cancel-frees_slot engine before booking booking before-IsValid cancelled_row-stored

cancelled_booking-found :
    find_reservation cancelled_booking.id before.reservations ≡ some cancelled_booking
unfolding find_reservation
cancelled_booking-found = refl

reopened-fine : row_violations before.columns (record cancelled_booking { status = confirmed }) ≡ []
unfolding row_violations party_check time_order_check
reopened-fine = refl

reopened-taken :
    any
      (conflicts (record cancelled_booking { status = confirmed }))
      (others cancelled_booking.id before.reservations)
    ≡ true
unfolding conflicts others
reopened-taken = refl

update_reservation-reopen_conflict_example :
    (status_code (Service.update_reservation engine legacy cancelled_booking confirming before).0
      ≡ 500)
    × ((Service.update_reservation engine legacy cancelled_booking confirming before).1 ≡ before)
update_reservation-reopen_conflict_example =
    update_reservation-reopen_conflict engine legacy before cancelled_booking
      cancelled_booking-found reopened-fine reopened-taken refl

pub booking-fine : row_violations before.columns booking ≡ []
unfolding row_violations party_check time_order_check
booking-fine = refl
