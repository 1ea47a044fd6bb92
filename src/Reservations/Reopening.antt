-- ===== src/Reservations/Reopening.antt =====
-- Cancelling frees the slot, and two gaps in PATCH (update_reservation of
-- app/services/reservations.py), which checks less than POST does.
use restaurant_reservation_s.Prelude.{
  ◌≡◌, refl, true, false, List, [], ◌∷◌, none, some, ◌==◌, any, arith, Bool-cases, ==→eq, ==-refl,
  inl, inr,
}
use restaurant_reservation_s.Http.{ok, raised, integrity_error, no_double_booking, status_code}
use restaurant_reservation_s.Models.Reservation.{
  Reservation, apply, conflicts, cancelled, confirmed,
}
use restaurant_reservation_s.Database.{Db, Engine, find_reservation}
use restaurant_reservation_s.Migration.Phase.{Phase}
use restaurant_reservation_s.Reservations.Requests.{ReservationUpdate}
use restaurant_reservation_s.Reservations.Store.{
  replace, others, update_outcome, update_row, row_violations, booking_violations, writes_missing,
}
use restaurant_reservation_s.Reservations.Service.{
  update_reservation, update_changes, cancel_changes,
}
use restaurant_reservation_s.Reservations.Cases.{edit-raised}
use restaurant_reservation_s.Reservations.Inversion.{update_outcome-eq-ok, update_row-eq-ok}
use restaurant_reservation_s.Reservations.Booking.{HasUniqueIds, others-fresh}
use restaurant_reservation_s.Reservations.Invariant.{IsValid, find-id}

cancelled-conflicts : (r q : Reservation) → q.status ≡ cancelled → conflicts r q ≡ false
unfolding conflicts
cancelled-conflicts r q h = ground arith

any-replace :
    (r row : Reservation) (rs : List Reservation)
    → HasUniqueIds rs
    → row.status ≡ cancelled
    → any (conflicts r) (replace row rs) ≡ any (conflicts r) (others row.id rs)
unfolding replace others
any-replace r row [] u h = refl
any-replace r row (q ∷ rs) u h = elim (Bool-cases (q.id == row.id)) [
  | inl hit ↦
      rw (
        hit,
        others-fresh row.id rs (rw (==→eq q.id row.id hit) at u.0),
        cancelled-conflicts r row h,
      )
  | inr miss ↦ rw (miss, any-replace r row rs u.1 h)
]

-- Cancelling frees the slot, in a valid database: after its UPDATE a request conflicts with the table only if it conflicts with
-- another reservation than the cancelled one.
pub cancel-frees_slot :
    (e : Engine) (s : Db) (loaded request : Reservation) {row : Reservation}
    → IsValid s
    → update_outcome e s loaded cancel_changes ≡ ok row
    → any (conflicts request) (replace row s.reservations)
      ≡ any (conflicts request) (others loaded.id s.reservations)
cancel-frees_slot e s loaded request {row} v h =
    let (q, found, version, u) = update_outcome-eq-ok e s loaded cancel_changes h in
    let f = update_row-eq-ok e s cancel_changes q u in
    let same = find-id loaded.id s.reservations found in
    let status : row.status ≡ cancelled = rw f.0 in
    let id : row.id ≡ loaded.id = rw f.0 same in
    rw (← id) (any-replace request row s.reservations v.unique status)

-- The changes of a PATCH that only sets the status to confirmed.
abbrev pub confirming : ReservationUpdate
confirming = record { guest_name = none; party_size = none; status = some confirmed }

confirm_outcome :
    (e : Engine) (p : Phase) (s : Db) (loaded : Reservation)
    → find_reservation loaded.id s.reservations ≡ some loaded
    → row_violations s.columns (apply (update_changes p confirming) loaded) ≡ []
    → any (conflicts (record loaded { status = confirmed })) (others loaded.id s.reservations)
      ≡ true
    → update_outcome e s loaded (update_changes p confirming)
      ≡ raised (integrity_error no_double_booking)
unfolding update_outcome update_row booking_violations update_changes writes_missing
confirm_outcome e p s loaded found fine taken =
    ground (arith, ==-refl loaded.version, e.report_IsIn no_double_booking [])

-- A gap: a PATCH that sets a stored reservation to confirmed, while another booking has its slot, is
-- answered 500 and not 409, and changes nothing, provided that the row satisfies its own constraints
-- and an UPDATE is sent.
pub update_reservation-reopen_conflict :
    (e : Engine) (p : Phase) (s : Db) (loaded : Reservation)
    → find_reservation loaded.id s.reservations ≡ some loaded
    → row_violations s.columns (record loaded { status = confirmed }) ≡ []
    → any (conflicts (record loaded { status = confirmed })) (others loaded.id s.reservations)
      ≡ true
    → e.emits loaded (update_changes p confirming) ≡ true
    → (status_code (update_reservation e p loaded confirming s).0 ≡ 500)
      × ((update_reservation e p loaded confirming s).1 ≡ s)
unfolding update_reservation update_changes status_code
update_reservation-reopen_conflict e p s loaded found fine taken sent =
    let r =
      edit-raised e p loaded (update_changes p confirming) s (integrity_error no_double_booking)
        sent (confirm_outcome e p s loaded found fine taken) in
    (rw r, rw r)
