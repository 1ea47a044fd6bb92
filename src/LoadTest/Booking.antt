-- ===== src/LoadTest/Booking.antt =====
-- A customer of the load test who books (loadtest/locustfile.py, book) when nobody else writes between
-- his two requests: app/routers/restaurants.py, check_availability, and POST /reservations.
use restaurant_reservation_s.Prelude.{
  ℕ, ◌+◌, ◌*◌, ◌≤◌, ◌≡◌, refl, ap, sym, ◌∙◌, true, false, List, ◌∷◌, none, some, map, any, select,
  arith, All, leb, inl, inr, ◌⊎◌,
}
use restaurant_reservation_s.Http.{ok}
use restaurant_reservation_s.Models.User.{User}
use restaurant_reservation_s.Models.Restaurant.{RestaurantTable}
use restaurant_reservation_s.Models.Reservation.{Reservation, confirmed, conflicts}
use restaurant_reservation_s.Database.{Db, Engine, find_user, find_restaurant, find_table}
use restaurant_reservation_s.Migration.Phase.{Phase, legacy, dual_write, read_new, new_only}
use restaurant_reservation_s.Migration.Fit.{Fits}
use restaurant_reservation_s.Paging.{order_by}
use restaurant_reservation_s.Paging.Ordered.{All-order_by, order_by-All}
use restaurant_reservation_s.Reservations.Store.{is_some}
use restaurant_reservation_s.Reservations.Service.{new_reservation}
use restaurant_reservation_s.Reservations.Routes.{create_reservation, respond, to_out, out}
use restaurant_reservation_s.Reservations.Etag.{etag}
use restaurant_reservation_s.Reservations.Requests.{ReservationCreate}
use restaurant_reservation_s.Reservations.Service
use restaurant_reservation_s.Action.Effects.{>>=-ok}
use restaurant_reservation_s.Names.{Text}
use restaurant_reservation_s.Reservations.Inversion.{stored}
use restaurant_reservation_s.Reservations.Cases.{with_row}
use restaurant_reservation_s.Reservations.Outcomes.{
  IsAcceptable, create_reservation-conflict_or_stored,
}
use restaurant_reservation_s.Restaurants.{AvailabilitySlot, slot, taken, offers, check_availability}
use restaurant_reservation_s.Restaurants.Availability.{taken-conflicts}
use restaurant_reservation_s.Traffic.{minute, hour}
use restaurant_reservation_s.LoadTest.Slots.{
  AllBusy, select-AllBusy, IsOffered, select-IsOffered, first_free-cases,
}
use restaurant_reservation_s.LoadTest.Noted.{IsNoted, remember-IsNoted}
use restaurant_reservation_s.LoadTest.{
  Customer, Visit, waited, sent, remember, availability, first_free, load_payload, try_table, book,
}

-- The ids of the tables are a key: each table is found under its own.
abbrev pub HasTableKeys : Db → Type 0
HasTableKeys s = All (λ t. find_table t.id s.tables ≡ some t) s.tables

-- The booking of the load test: a party of two for 90 minutes at a table of the restaurant that can be
-- booked for it.
pub record IsLoadBooking (e : Engine) (user : User) (rid start : ℕ) (s : Db) (row : Reservation)
    : Type 0 where
  pub table : RestaurantTable
  pub found : find_table row.restaurant_table_id s.tables ≡ some table
  pub at_restaurant : table.restaurant_id ≡ rid
  pub active : table.is_active ≡ true
  pub seats : 2 ≤ table.capacity
  pub is_new_id : row.id ≡ e.next_reservation_id s.reservations
  pub is_new_version : row.version ≡ e.next_xid s.reservations
  pub of_user : row.user_id ≡ user.id
  pub of_restaurant : row.restaurant_id ≡ rid
  pub party : row.party_size ≡ 2
  pub starts : row.starts_at ≡ start
  pub ends : row.ends_at ≡ start + 90 * minute
  pub status : row.status ≡ confirmed

module _ (e : Engine) (p : Phase) (user : User) (rid : ℕ) (c : Customer) (s : Db) where
  abbrev until : ℕ
  until = c.next_slot + 90 * minute

  abbrev slots : List AvailabilitySlot
  slots =
      map (slot c.next_slot until s)
        (order_by (λ t u. leb t.id u.id) (select (offers rid 2) s.tables))

  availability-ok : availability rid c.next_slot s ≡ ok slots
  unfolding availability check_availability
  availability-ok = ground arith

  book-try : book e p user rid c s ≡ try_table e p user rid (first_free slots) c s
  unfolding book
  book-try = rw (availability-ok, book) refl

  abbrev booked_visit : ℕ → Visit
  booked_visit table_id =
      let b = load_payload rid table_id c.next_slot in
      let row = stored e s (new_reservation p user.id b) in
      record {
        code = some 201;
        customer = record (waited c) { bookings = remember row.id row.version c.bookings };
        db = with_row s row;
      }

  acceptable :
      (t : RestaurantTable)
      → IsOffered rid s t
      → is_some (find_user user.id s.users) ≡ true
      → is_some (find_restaurant rid s.restaurants) ≡ true
      → IsAcceptable s user.id (load_payload rid t.id c.next_slot) t
  unfolding load_payload
  acceptable t o u r = record {
    table_found = o.found;
    same_restaurant = o.here;
    active = o.active;
    seats = o.seats;
    user_exists = u;
    restaurant_exists = r;
    someone_comes = omega arith;
    not_too_many = omega arith;
    window = omega arith;
  }

  respond_new :
      (b : ReservationCreate)
      → (name : Text) × (respond p p
            (stored e s (new_reservation p user.id b))
            (with_row s (stored e s (new_reservation p user.id b)))
          ≡ (
            ok (
              out (stored e s (new_reservation p user.id b)) name,
              etag (stored e s (new_reservation p user.id b)),
            ),
            with_row s (stored e s (new_reservation p user.id b)),
          ))
  unfolding respond to_out new_reservation
  respond_new b = by_phase p
    where
      by_phase :
          (q : Phase)
          → (name : Text) × (respond q q
                (stored e s (new_reservation q user.id b))
                (with_row s (stored e s (new_reservation q user.id b)))
              ≡ (
                ok (
                  out (stored e s (new_reservation q user.id b)) name,
                  etag (stored e s (new_reservation q user.id b)),
                ),
                with_row s (stored e s (new_reservation q user.id b)),
              ))
      by_phase legacy = (_, refl)
      by_phase dual_write = (_, refl)
      by_phase read_new = (_, refl)
      by_phase new_only = (_, refl)

  create_reservation-free :
      (b : ReservationCreate) (t : RestaurantTable)
      → Fits p s.columns
      → IsAcceptable s user.id b t
      → any (conflicts (new_reservation p user.id b)) s.reservations ≡ false
      → (name : Text) × (create_reservation e p user b s ≡ (
        ok (
          out (stored e s (new_reservation p user.id b)) name,
          etag (stored e s (new_reservation p user.id b)),
        ),
        with_row s (stored e s (new_reservation p user.id b)),
      ))
  unfolding create_reservation
  create_reservation-free b t f a free =
      let row = stored e s (new_reservation p user.id b) in
      let (name, answer) = respond_new b in
      let whole : Service.create_reservation e p user.id b s ≡ (ok row, with_row s row) =
        rw (create_reservation-conflict_or_stored e p user.id b s t f a, free) refl in
      (
        name,
        >>=-ok (Service.create_reservation e p user.id b) (λ r. respond p p r) s (with_row s row)
              row whole
            ∙ answer,
      )

  try_table-free :
      (t : RestaurantTable)
      → Fits p s.columns
      → IsAcceptable s user.id (load_payload rid t.id c.next_slot) t
      → taken t.id c.next_slot until s.reservations ≡ false
      → try_table e p user rid (some t.id) c s ≡ booked_visit t.id
  unfolding try_table
  try_table-free t f a free =
      let b = load_payload rid t.id c.next_slot in
      let clear : any (conflicts (new_reservation p user.id b)) s.reservations ≡ false =
        sym (taken-conflicts p user.id b s.reservations) ∙ (unfold load_payload in free) in
      let (_, whole) = create_reservation-free b t f a clear in ap (λ x. sent x (waited c)) whole

  booked_visit-IsLoadBooking :
      (t : RestaurantTable)
      → IsOffered rid s t
      → IsLoadBooking e user rid c.next_slot s
          (stored e s (new_reservation p user.id (load_payload rid t.id c.next_slot)))
  unfolding new_reservation load_payload
  booked_visit-IsLoadBooking t o = record {
    table = t;
    found = o.found;
    at_restaurant = o.here;
    active = o.active;
    seats = o.seats;
    is_new_id = refl;
    is_new_version = refl;
    of_user = refl;
    of_restaurant = refl;
    party = refl;
    starts = refl;
    ends = refl;
    status = refl;
  }

  -- In a phase that fits the schema, for a user and a restaurant that are there, and where the ids of
  -- the tables are a key: when nobody writes between the availability query and the POST of a customer
  -- of the load test, either every table of the restaurant that can be booked for two is busy, and only
  -- his slot is spent; or the POST is answered 201, a booking for two at a table of the restaurant is
  -- stored for his slot, and he has noted its version under its id, and those of his other bookings as
  -- before. He never gets a 409.
  pub book-served :
      Fits p s.columns
      → HasTableKeys s
      → is_some (find_user user.id s.users) ≡ true
      → is_some (find_restaurant rid s.restaurants) ≡ true
      → (AllBusy rid c.next_slot (c.next_slot + 90 * minute) s
          × (book e p user rid c s ≡ record {
            code = none;
            customer = record c { next_slot = c.next_slot + 2 * hour };
            db = s;
          }))
        ⊎ ((row : Reservation) × (noted : List (ℕ × ℕ)) × (book e p user rid c s ≡ record {
          code = some 201;
          customer = record { next_slot = c.next_slot + 2 * hour; bookings = noted };
          db = record s { reservations = row ∷ s.reservations };
        })
            × IsLoadBooking e user rid c.next_slot s row
            × IsNoted row.id row.version c.bookings noted)
  book-served f keys u r =
      let by_id = λ (t u : RestaurantTable). leb t.id u.id in
      let tables = select (offers rid 2) s.tables in
      let offered =
        All-order_by by_id (IsOffered rid s) tables (select-IsOffered rid s s.tables keys) in
      elim (first_free-cases (IsOffered rid s) c.next_slot until s (order_by by_id tables)
        offered) [
          | inl (none_free, busy) ↦ inl (
            select-AllBusy rid c.next_slot until s.reservations s.tables (
                order_by-All by_id (λ t. taken t.id c.next_slot until s.reservations ≡ true) tables
                  busy),
            book-try ∙ unfold try_table in ap (λ o. try_table e p user rid o c s) none_free,
          )
          | inr (t, first, o, free) ↦
              let row =
                stored e s (new_reservation p user.id (load_payload rid t.id c.next_slot)) in
              inr (
                row,
                remember row.id row.version c.bookings,
                book-try
                    ∙ (ap (λ o. try_table e p user rid o c s) first
                        ∙ try_table-free t f (acceptable t o u r) free),
                booked_visit-IsLoadBooking t o,
                remember-IsNoted row.id row.version c.bookings,
              )
        ]
