-- ===== src/Reservations/Routes.antt =====
-- app/routers/reservations.py, and the response that the service builds (to_out, to_list_item).
use restaurant_reservation_s.Prelude.{
  ℕ, Bool, true, false, not, ◌||◌, Option, none, some, ◌==◌, all, if◌then◌else◌,
}
use restaurant_reservation_s.Http.{
  Outcome, ok, raised, validation_error, raiseload_error, reservation_not_found,
  not_your_reservation,
}
use restaurant_reservation_s.Names.{Text, rebuilt_name}
use restaurant_reservation_s.Models.User.{User, customer, role_eq}
use restaurant_reservation_s.Models.Reservation.{Reservation, ReservationStatus}
use restaurant_reservation_s.Database.{Engine}
use restaurant_reservation_s.Migration.Phase.{Phase, NameColumn, contains, read_columns}
use restaurant_reservation_s.Action.{Action, ◌>>=◌, ◌>>◌, require, find_or_raise, reading, pure}
use restaurant_reservation_s.Reservations.Requests.{ReservationCreate, ReservationUpdate}
use restaurant_reservation_s.Reservations.Store.{select_reservation}
use restaurant_reservation_s.Reservations.Etag.{check_if_match, etag}
use restaurant_reservation_s.Reservations.Service

pub record ReservationOut : Type 0 where
  pub id : ℕ
  pub user_id : ℕ
  pub restaurant_id : ℕ
  pub restaurant_table_id : ℕ
  pub guest_name : Text
  pub party_size : ℕ
  pub starts_at : ℕ
  pub ends_at : ℕ
  pub status : ReservationStatus
  pub created_at : ℕ
  pub version : ℕ

-- The body and the ETag header.
abbrev pub Response : Type 0
Response = ReservationOut × Text

-- `_fields` reads the columns of the phase `now` from a row whose query loaded those of the phase
-- `loaded`; reading a column that was not loaded raises (deferred_raiseload).
unfoldable pub read_name : Phase → Phase → Reservation → Outcome (Option Text)
read_name loaded now r =
    if all (λ c. contains c (read_columns loaded)) (read_columns now)
    then ok (
        if contains NameColumn.guest_name (read_columns now)
        then r.guest_name
        else some (rebuilt_name r.first_name r.last_name))
    else raised raiseload_error

abbrev pub out : Reservation → Text → ReservationOut
out r name = record {
  id = r.id;
  user_id = r.user_id;
  restaurant_id = r.restaurant_id;
  restaurant_table_id = r.restaurant_table_id;
  guest_name = name;
  party_size = r.party_size;
  starts_at = r.starts_at;
  ends_at = r.ends_at;
  status = r.status;
  created_at = r.created_at;
  version = r.version;
}

-- ReservationOut requires a guest_name: None is a ValidationError.
abbrev pub built : Reservation → Outcome (Option Text) → Outcome ReservationOut
built r (ok (some name)) = ok (out r name)
built r (ok none) = raised validation_error
built r (raised x) = raised x

unfoldable pub to_out : Phase → Phase → Reservation → Outcome ReservationOut
unfolding read_name
to_out loaded now r = built r (read_name loaded now r)

-- The answer for a row: its fields, and the ETag header.
unfoldable pub respond : Phase → Phase → Reservation → Action Response
respond loaded now r = do body ← reading (λ s. to_out loaded now r); pure (body, etag r)

-- The id of the path is taken to fit BIGINT.
unfoldable pub load_owned : Phase → ℕ → User → Action Reservation
load_owned p i current = do
  selected ← reading (select_reservation p i)
  reservation ← find_or_raise (λ s. selected) 404 reservation_not_found
  require (not (role_eq current.role customer) || reservation.user_id == current.id) 403
      not_your_reservation
  pure reservation

-- POST /api/v1/reservations
unfoldable pub create_reservation : Engine → Phase → User → ReservationCreate → Action Response
create_reservation e p current b = do
  reservation ← Service.create_reservation e p current.id b
  respond p p reservation

-- GET /api/v1/reservations/{id}. The phase may change while the query runs: `loaded` is the phase
-- when the query was built, `now` the phase when the response is.
unfoldable pub get_reservation : Phase → Phase → ℕ → User → Action Response
get_reservation loaded now i current = do
  reservation ← load_owned loaded i current
  respond loaded now reservation

-- PATCH and DELETE in two halves: what the request reads, and what it does afterwards. Other requests
-- may commit in between.
unfoldable pub begin_edit : Phase → ℕ → User → Option Text → Bool → Action Reservation
begin_edit p i current if_match required = do
  reservation ← load_owned p i current
  reading (λ s. check_if_match reservation if_match required)
  pure reservation

unfoldable pub finish_update : Engine → Phase → Reservation → ReservationUpdate → Action Response
finish_update e p loaded b = do
  reservation ← Service.update_reservation e p loaded b
  respond p p reservation

unfoldable pub finish_cancel : Engine → Phase → Reservation → Action Response
finish_cancel e p loaded = do
  reservation ← Service.cancel_reservation e p loaded
  respond p p reservation

-- PATCH /api/v1/reservations/{id}, with no other request in between.
unfoldable pub update_reservation :
    Engine → Phase → ℕ → User → Option Text → ReservationUpdate → Action Response
update_reservation e p i current if_match b = do
  reservation ← begin_edit p i current if_match true
  finish_update e p reservation b

-- DELETE /api/v1/reservations/{id}, with no other request in between.
unfoldable pub cancel_reservation : Engine → Phase → ℕ → User → Option Text → Action Response
cancel_reservation e p i current if_match = do
  reservation ← begin_edit p i current if_match false
  finish_cancel e p reservation
