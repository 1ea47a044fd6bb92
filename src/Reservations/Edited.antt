-- ===== src/Reservations/Edited.antt =====
-- What an UPDATE of one reservation does to the table, and what a PATCH sets on a row
-- (app/services/reservations.py, update_reservation), row by row and column by column.
use restaurant_reservation_s.Prelude.{
  ℕ, ◌≡◌, refl, ap, true, List, [], ◌∷◌, ◌++◌, Option, none, some, ◌==◌, arith, Bool-cases, inl,
  inr,
}
use restaurant_reservation_s.Names.{Text, split_guest_name}
use restaurant_reservation_s.Models.Reservation.{Reservation}
use restaurant_reservation_s.Database.{find_reservation}
use restaurant_reservation_s.Migration.Phase.{Phase, legacy, dual_write, read_new, new_only}
use restaurant_reservation_s.Reservations.Requests.{ReservationUpdate, validate_update}
use restaurant_reservation_s.Reservations.Service.{update_changes, update_reservation}
use restaurant_reservation_s.Reservations.Store.{replace, row_violations}
use restaurant_reservation_s.Reservations.Invariant.{IsValid}
use restaurant_reservation_s.Migration.Fit.{Fits}
use restaurant_reservation_s.Http.{ok}
use restaurant_reservation_s.Reservations.Success.{edited_row, update_reservation-stored}
use restaurant_reservation_s.Database.{Db, Engine}

-- The new row stands in the place of the old one, and all others are as they were.
abbrev pub InPlace : Reservation → Reservation → List Reservation → List Reservation → Type 0
InPlace old new rs qs =
    (kept later : List Reservation) × (rs ≡ kept ++ old ∷ later) × (qs ≡ kept ++ new ∷ later)

InPlace-cons :
    (r old new : Reservation) {rs qs : List Reservation}
    → InPlace old new rs qs
    → InPlace old new (r ∷ rs) (r ∷ qs)
InPlace-cons r old new (kept, later, h, k) = (r ∷ kept, later, ap (λ l. r ∷ l) h, ap (λ l. r ∷ l) k)

pub replace-InPlace :
    (old new : Reservation) (rs : List Reservation)
    → find_reservation new.id rs ≡ some old
    → InPlace old new rs (replace new rs)
unfolding find_reservation replace
replace-InPlace old new [] h = cc
replace-InPlace old new (r ∷ rs) h = elim (Bool-cases (r.id == new.id)) [
  | inl hit ↦ rw hit ([], rs, ground (arith, hit, h), refl)
  | inr miss ↦ rw miss (InPlace-cons r old new (replace-InPlace old new rs (rw miss at h)))
]

-- The name columns that a phase writes have got the name; the others are as they were.
abbrev pub IsRenamed : Phase → Option Text → Reservation → Reservation → Type 0
IsRenamed p none old new =
    (new.guest_name ≡ old.guest_name)
    × (new.first_name ≡ old.first_name)
    × (new.last_name ≡ old.last_name)
IsRenamed legacy (some name) old new =
    (new.guest_name ≡ some name)
    × (new.first_name ≡ old.first_name)
    × (new.last_name ≡ old.last_name)
IsRenamed new_only (some name) old new =
    (new.guest_name ≡ old.guest_name)
    × (new.first_name ≡ some (split_guest_name name).0)
    × (new.last_name ≡ some (split_guest_name name).1)
IsRenamed _ (some name) old new =
    (new.guest_name ≡ some name)
    × (new.first_name ≡ some (split_guest_name name).0)
    × (new.last_name ≡ some (split_guest_name name).1)

-- The party is the new one, if there is one.
abbrev pub IsResized : Option ℕ → Reservation → Reservation → Type 0
IsResized none old new = new.party_size ≡ old.party_size
IsResized (some n) old new = new.party_size ≡ n

-- A row under a new version, with the name and the party of the request where it has them.
pub record IsEdited (p : Phase) (version : ℕ) (b : ReservationUpdate) (old new : Reservation)
    : Type 0 where
  pub is_new_version : new.version ≡ version
  pub name : IsRenamed p b.guest_name old new
  pub party : IsResized b.party_size old new
  pub same_status : new.status ≡ old.status
  pub same_id : new.id ≡ old.id
  pub same_user : new.user_id ≡ old.user_id
  pub same_restaurant : new.restaurant_id ≡ old.restaurant_id
  pub same_table : new.restaurant_table_id ≡ old.restaurant_table_id
  pub same_start : new.starts_at ≡ old.starts_at
  pub same_end : new.ends_at ≡ old.ends_at
  pub same_creation : new.created_at ≡ old.created_at

edited_row-IsRenamed :
    (e : Engine) (p : Phase) (s : Db) (b : ReservationUpdate) (old : Reservation) (o : Option Text)
    → b.guest_name ≡ o
    → IsRenamed p o old (edited_row e s (update_changes p b) old)
unfolding update_changes
edited_row-IsRenamed e p s b old none h = rw h (refl, refl, refl)
edited_row-IsRenamed e legacy s b old (some name) h = rw h (refl, refl, refl)
edited_row-IsRenamed e dual_write s b old (some name) h = rw h (refl, refl, refl)
edited_row-IsRenamed e read_new s b old (some name) h = rw h (refl, refl, refl)
edited_row-IsRenamed e new_only s b old (some name) h = rw h (refl, refl, refl)

edited_row-IsResized :
    (e : Engine) (p : Phase) (s : Db) (b : ReservationUpdate) (old : Reservation) (o : Option ℕ)
    → b.party_size ≡ o
    → IsResized o old (edited_row e s (update_changes p b) old)
unfolding update_changes
edited_row-IsResized e p s b old none h = rw h refl
edited_row-IsResized e p s b old (some n) h = rw h refl

pub edited_row-IsEdited :
    (e : Engine) (p : Phase) (s : Db) (b : ReservationUpdate) (old : Reservation)
    → b.status ≡ none
    → IsEdited p (e.next_xid s.reservations) b old (edited_row e s (update_changes p b) old)
unfolding update_changes
edited_row-IsEdited e p s b old no_status = record {
  is_new_version = refl;
  name = edited_row-IsRenamed e p s b old b.guest_name refl;
  party = edited_row-IsResized e p s b old b.party_size refl;
  same_status = rw no_status refl;
  same_id = refl;
  same_user = refl;
  same_restaurant = refl;
  same_table = refl;
  same_start = refl;
  same_end = refl;
  same_creation = refl;
}

-- In a phase that fits the schema, on the current version of a stored row of a valid database, a valid
-- PATCH that leaves the status alone and sends an UPDATE returns the row as edited: under a new
-- version, with the party of the request if it has one, and with its name, if it has one, in the
-- columns that the phase writes, everything else as it was. The edited row stands in the place of the
-- old one; nothing else of the database changes.
pub update_reservation-IsEdited :
    (e : Engine) (p : Phase) (s : Db) (loaded : Reservation) (b : ReservationUpdate)
    → Fits p s.columns
    → IsValid s
    → find_reservation loaded.id s.reservations ≡ some loaded
    → row_violations s.columns loaded ≡ []
    → validate_update b ≡ true
    → b.status ≡ none
    → e.emits loaded (update_changes p b) ≡ true
    → (row : Reservation) × (after : List Reservation) × (update_reservation e p loaded b s
        ≡ (ok row, record s { reservations = after }))
      × IsEdited p (e.next_xid s.reservations) b loaded row
      × InPlace loaded row s.reservations after
update_reservation-IsEdited e p s loaded b f v found sound valid no_status sent =
    let row = edited_row e s (update_changes p b) loaded in
    (
      row,
      replace row s.reservations,
      update_reservation-stored e p s loaded b f v found sound valid no_status sent,
      edited_row-IsEdited e p s b loaded no_status,
      replace-InPlace loaded row s.reservations found,
    )
