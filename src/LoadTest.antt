-- ===== src/LoadTest.antt =====
-- The load test (loadtest/locustfile.py): how a customer books, against the API, and the targets. The
-- choice of a restaurant is an input, and so is what Locust has measured.
pub mod Noted
pub mod Slots
pub mod Booking
pub mod Edits
use restaurant_reservation_s.Prelude.{
  ℕ, ◌+◌, ◌*◌, Bool, true, false, not, ◌&&◌, List, [], ◌∷◌, Option, none, some, ◌==◌, ltb,
  if◌then◌else◌, length,
}
use restaurant_reservation_s.Http.{Outcome, ok, raised, status_code}
use restaurant_reservation_s.Names.{Text}
use restaurant_reservation_s.Models.User.{User}
use restaurant_reservation_s.Database.{Db, Engine}
use restaurant_reservation_s.Migration.Phase.{Phase}
use restaurant_reservation_s.Reservations.Requests.{Datetime, ReservationCreate, ReservationUpdate}
use restaurant_reservation_s.Reservations.Routes.{
  Response, create_reservation, get_reservation, update_reservation, cancel_reservation,
}
use restaurant_reservation_s.Traffic.Serving.{if_match}
use restaurant_reservation_s.Restaurants.{AvailabilitySlot, check_availability}
use restaurant_reservation_s.Traffic.{minute, hour, day}
use restaurant_reservation_s.Traffic.Burst.{posted_code}

-- What a customer keeps: `bookings` has the version of each reservation, in the order of the ids' first
-- entry.
pub record Customer : Type 0 where
  pub next_slot : ℕ
  pub bookings : List (ℕ × ℕ)

-- The first slot: a number of days after the full hour at which the test begins.
unfoldable pub on_start : ℕ → ℕ → Customer
on_start this_hour days = record { next_slot = this_hour + days * day; bookings = [] }

abbrev pub aware : ℕ → Datetime
aware t = record { instant = t; is_aware = true }

-- The answer, if it is one, as `availability` returns it.
unfoldable pub availability : ℕ → ℕ → Db → Outcome (List AvailabilitySlot)
availability rid start s = check_availability rid (aware start) (aware (start + 90 * minute)) 2 s

-- [s for s in ... if s["available"]], and `free[0]`
abbrev pub first_free : List AvailabilitySlot → Option ℕ
first_free [] = none
first_free (x ∷ xs) = if x.available then some x.restaurant_table_id else first_free xs

abbrev load_test : Text
load_test = b'L' ∷ b'o' ∷ b'a' ∷ b'd' ∷ b' ' ∷ b'T' ∷ b'e' ∷ b's' ∷ b't' ∷ []

unfoldable pub load_payload : ℕ → ℕ → ℕ → ReservationCreate
load_payload rid table_id start = record {
  restaurant_id = rid;
  restaurant_table_id = table_id;
  guest_name = load_test;
  party_size = 2;
  starts_at = start;
  ends_at = start + 90 * minute;
}

-- self.bookings[i] = version
unfoldable pub remember : ℕ → ℕ → List (ℕ × ℕ) → List (ℕ × ℕ)
remember i version [] = (i, version) ∷ []
remember i version ((j, v) ∷ bs) =
    let rest = remember i version bs in if j == i then (i, version) ∷ bs else (j, v) ∷ rest

-- How a task leaves things: the status of its POST, if it sends one, the customer, and the database.
pub record Visit : Type 0 where
  pub code : Option ℕ
  pub customer : Customer
  pub db : Db

-- `if r.status_code == 201`
abbrev pub noted : Outcome Response → Customer → Customer
noted (ok r) c = record c { bookings = remember r.0.id r.0.version c.bookings }
noted (raised x) c = c

abbrev pub waited : Customer → Customer
waited c = record c { next_slot = c.next_slot + 2 * hour }

abbrev pub sent : Outcome Response × Db → Customer → Visit
sent (r, t) c = record { code = some (posted_code r); customer = noted r c; db = t }

unfoldable pub try_table : Engine → Phase → User → ℕ → Option ℕ → Customer → Db → Visit
try_table e p user rid none c s = record { code = none; customer = waited c; db = s }
try_table e p user rid (some table_id) c s =
    sent (create_reservation e p user (load_payload rid table_id c.next_slot) s) (waited c)

-- `book`: an answer of the availability query that is an error has no slots to iterate over, and the
-- task ends with an exception; the slot is spent all the same.
unfoldable pub book : Engine → Phase → User → ℕ → Customer → Db → Visit
book e p user rid c s = elim (availability rid c.next_slot s) [
  | raised x ↦ record { code = none; customer = waited c; db = s }
  | ok slots ↦ try_table e p user rid (first_free slots) c s
]

-- json={"party_size": ...}
abbrev pub party_body : ℕ → ReservationUpdate
party_body n = record { guest_name = none; party_size = some n; status = none }

-- `if r.status_code == 200`, after the PATCH
abbrev pub patched : ℕ → Outcome Response × Db → Customer → Visit
patched i (ok r, t) c = record {
  code = some 200;
  customer = record c { bookings = remember i r.0.version c.bookings };
  db = t;
}
patched i (raised x, t) c =
    let r : Outcome Response = raised x in
    record { code = some (status_code r); customer = c; db = t }

-- The PATCH with the version that the GET has shown; an answer without one is a KeyError.
abbrev pub edited_with :
    (Text → Db → Outcome Response × Db) → ℕ → Outcome Response × Db → Customer → Visit
edited_with patch i (ok r, t) c = patched i (patch (if_match r.0.version) t) c
edited_with patch i (raised x, t) c = record { code = none; customer = c; db = t }

-- `edit_booking`, for the booking i that was drawn and the party of n.
unfoldable pub edit_booking : Engine → Phase → User → ℕ → ℕ → Customer → Db → Visit
edit_booking e p user i n c s =
    edited_with (λ tag. update_reservation e p i user (some tag) (party_body n)) i
      (get_reservation p p i user s) c

-- `popitem`: the last entry, and those before it.
unfoldable pub pop_last : ℕ × ℕ → List (ℕ × ℕ) → List (ℕ × ℕ) × (ℕ × ℕ)
pop_last b [] = ([], b)
pop_last b (d ∷ bs) = let rest = pop_last d bs in (b ∷ rest.0, rest.1)

abbrev pub cancelled_with : Outcome Response × Db → Customer → Visit
cancelled_with (r, t) c = record { code = some (status_code r); customer = c; db = t }

-- `cancel_booking`, of a customer with three bookings or more.
unfoldable pub cancel_booking : Engine → Phase → User → Customer → Db → Visit
cancel_booking e p user c s = elim c.bookings [
  | [] ↦ record { code = none; customer = c; db = s }
  | b ∷ bs ↦
      let (kept, last) = pop_last b bs in
      if ltb (length c.bookings) 3
      then record { code = none; customer = c; db = s }
      else cancelled_with (cancel_reservation e p last.0 user (some (if_match last.1)) s)
          (record c { bookings = kept })
]

-- What Locust has measured, in milliseconds; fail_ratio is the number of failures over that of requests.
pub record Total : Type 0 where
  pub num_requests : ℕ
  pub num_failures : ℕ
  pub p95 : ℕ
  pub p99 : ℕ

-- Whether the process exits with code 1: p95 < 200, p99 < 500, fail_ratio < 0.01.
unfoldable pub misses_target : Total → Bool
misses_target t =
    not (t.num_requests == 0)
    && not (ltb t.p95 200 && ltb t.p99 500 && ltb (t.num_failures * 100) t.num_requests)
