-- ===== src/Reservations/Outcomes.antt =====
-- What POST /reservations answers: `create_reservation` of app/services/reservations.py, on each of
-- its branches.
use restaurant_reservation_s.Prelude.{
  ℕ, ◌<◌, ◌≤◌, ◌≡◌, true, false, List, [], ◌∷◌, some, any, if◌then◌else◌, arith, ==-refl,
}
use restaurant_reservation_s.Http.{
  ok, raised, http_exception, already_booked, no_double_booking, integrity_error,
}
use restaurant_reservation_s.Models.Restaurant.{RestaurantTable}
use restaurant_reservation_s.Models.Reservation.{
  Reservation, conflicts, party_check, time_order_check,
}
use restaurant_reservation_s.Database.{
  Db, Columns, Engine, find_table, find_user, find_restaurant, find_reservation,
}
use restaurant_reservation_s.Migration.Phase.{Phase}
use restaurant_reservation_s.Migration.Fit.{Fits}
use restaurant_reservation_s.Reservations.Requests.{ReservationCreate}
use restaurant_reservation_s.Reservations.Store.{
  is_some, insert_outcome, insert_reservation, row_violations, booking_violations, key_violations,
  writes_missing, names_of, select_reservation,
}
use restaurant_reservation_s.Reservations.Service.{
  create_reservation, new_reservation, book, reload,
}
use restaurant_reservation_s.Reservations.Inversion.{stored}
use restaurant_reservation_s.Reservations.Cases.{with_row}

-- The request passes every check of the handler, and the keys that it names exist.
pub record IsAcceptable (s : Db) (user_id : ℕ) (b : ReservationCreate) (t : RestaurantTable)
    : Type 0 where
  pub table_found : find_table b.restaurant_table_id s.tables ≡ some t
  pub same_restaurant : t.restaurant_id ≡ b.restaurant_id
  pub active : t.is_active ≡ true
  pub seats : b.party_size ≤ t.capacity
  pub user_exists : is_some (find_user user_id s.users) ≡ true
  pub restaurant_exists : is_some (find_restaurant b.restaurant_id s.restaurants) ≡ true
  pub someone_comes : 0 < b.party_size
  pub not_too_many : b.party_size ≤ 20
  pub window : b.starts_at < b.ends_at

-- Another booking makes a request no less acceptable: the check of the slot comes last.
pub IsAcceptable-with_row :
    (s : Db) (user_id : ℕ) (b : ReservationCreate) (t : RestaurantTable) (row : Reservation)
    → IsAcceptable s user_id b t
    → IsAcceptable (with_row s row) user_id b t
IsAcceptable-with_row s user_id b t row a = record {
  table_found = a.table_found;
  same_restaurant = a.same_restaurant;
  active = a.active;
  seats = a.seats;
  user_exists = a.user_exists;
  restaurant_exists = a.restaurant_exists;
  someone_comes = a.someone_comes;
  not_too_many = a.not_too_many;
  window = a.window;
}

module _ (e : Engine) (p : Phase) (user_id : ℕ) (b : ReservationCreate) where
  abbrev requested : Reservation
  requested = new_reservation p user_id b

  pub Fits-writes_missing :
      (cs : Columns) → Fits p cs → writes_missing cs (names_of requested) ≡ false
  unfolding writes_missing new_reservation
  Fits-writes_missing cs f = ground arith

  Fits-row_violations :
      (s : Db) (t : RestaurantTable)
      → Fits p s.columns
      → IsAcceptable s user_id b t
      → row_violations s.columns requested ≡ []
  unfolding row_violations new_reservation party_check time_order_check
  Fits-row_violations s t f a = ground arith

  acceptable-key_violations :
      (s : Db) (t : RestaurantTable) → IsAcceptable s user_id b t → key_violations s requested ≡ []
  unfolding key_violations new_reservation
  acceptable-key_violations s t a = ground arith

  -- With all else in order, the INSERT stands or falls with the EXCLUDE constraint.
  insert_requested :
      (s : Db) (t : RestaurantTable)
      → Fits p s.columns
      → IsAcceptable s user_id b t
      → insert_outcome e s requested ≡ (
          if any (conflicts requested) s.reservations
          then raised (integrity_error no_double_booking)
          else ok (stored e s requested))
  unfolding insert_outcome booking_violations
  insert_requested s t f a = ground (
    arith,
    Fits-writes_missing s.columns f,
    Fits-row_violations s t f a,
    acceptable-key_violations s t a,
    e.report_IsIn no_double_booking [],
  )

  -- `book`, once what the INSERT answers is known.
  book_taken :
      (s : Db)
      → insert_outcome e s requested ≡ raised (integrity_error no_double_booking)
      → book e p requested s ≡ (raised (http_exception 409 already_booked), s)
  unfolding book insert_reservation
  book_taken s h = ground arith

  find_inserted :
      (row : Reservation) (rs : List Reservation) → find_reservation row.id (row ∷ rs) ≡ some row
  unfolding find_reservation
  find_inserted row rs = rw (==-refl row.id)

  reload_inserted :
      (s : Db) (row : Reservation)
      → Fits p s.columns
      → reload p row.id (with_row s row) ≡ (ok row, with_row s row)
  unfolding reload select_reservation
  reload_inserted s row f = ground (arith, find_inserted row s.reservations)

  pub book_free :
      (s : Db) (row : Reservation)
      → Fits p s.columns
      → insert_outcome e s requested ≡ ok row
      → book e p requested s ≡ (ok row, with_row s row)
  unfolding book insert_reservation
  book_free s row f h = ground (arith, reload_inserted s row f)

  -- In a phase that fits the schema, a request that passes the checks is answered 409, with nothing
  -- written, when a booking of that table that is not cancelled overlaps it; otherwise the new row is
  -- stored and returned.
  pub create_reservation-conflict_or_stored :
      (s : Db) (t : RestaurantTable)
      → Fits p s.columns
      → IsAcceptable s user_id b t
      → create_reservation e p user_id b s ≡ (
          if any (conflicts requested) s.reservations
          then (raised (http_exception 409 already_booked), s)
          else (ok (stored e s requested), with_row s (stored e s requested)))
  unfolding create_reservation
  create_reservation-conflict_or_stored s t f a = ground (
    arith,
    ==-refl t.restaurant_id,
    insert_requested s t f a,
    book_taken s,
    book_free s (stored e s requested) f,
  )
