-- ===== src/Reservations/Inversion.antt =====
-- What a successful INSERT or UPDATE of the reservations table says of the row and of the table.
use restaurant_reservation_s.Prelude.{
  ℕ, ◌≡◌, refl, false, List, [], ◌∷◌, Option, none, some, arith, append-eq-nil, Bool-cases, inl,
  inr,
}
use restaurant_reservation_s.Http.{Outcome, ok, raised, stale_data_error, Constraint}
use restaurant_reservation_s.Models.Reservation.{Reservation, Changes, apply}
use restaurant_reservation_s.Database.{Db, Engine, find_reservation}
use restaurant_reservation_s.Reservations.Store.{
  others, checked, insert_outcome, update_outcome, update_row, matching, booking_violations,
  row_violations, key_violations, writes_missing, names_of,
}

pub checked-eq-ok :
    (e : Engine) (cs : List Constraint) {A : Type 0} (r : Outcome A) {a : A}
    → checked e cs r ≡ ok a
    → (cs ≡ []) × (r ≡ ok a)
checked-eq-ok e [] r h = (refl, h)
checked-eq-ok e (c ∷ cs) r h = cc

-- The row as the INSERT stores it.
abbrev pub stored : Engine → Db → Reservation → Reservation
stored e s r = record r {
  id = e.next_reservation_id s.reservations;
  version = e.next_xid s.reservations;
  created_at = e.now;
}

pub insert_outcome-eq-ok :
    (e : Engine) (s : Db) (r : Reservation) {row : Reservation}
    → insert_outcome e s r ≡ ok row
    → (row ≡ stored e s r)
      × (writes_missing s.columns (names_of r) ≡ false)
      × (row_violations s.columns r ≡ [])
      × (booking_violations s.reservations r ≡ [])
      × (key_violations s r ≡ [])
unfolding insert_outcome
insert_outcome-eq-ok e s r h = elim (Bool-cases (writes_missing s.columns (names_of r))) [
  | inl missing ↦ ground arith
  | inr fine ↦
      let p = checked-eq-ok e _ (ok (stored e s r)) (rw fine at h) in
      let q = append-eq-nil (row_violations s.columns r) _ p.0 in
      let t = append-eq-nil (booking_violations s.reservations r) _ q.1 in
      (cc p.1, fine, q.0, t.0, t.1)
]

pub update_row-eq-ok :
    (e : Engine) (s : Db) (c : Changes) (q : Reservation) {row : Reservation}
    → update_row e s c q ≡ ok row
    → (row ≡ record (apply c q) { version = e.next_xid s.reservations })
      × (writes_missing s.columns c.names ≡ false)
      × (row_violations s.columns (apply c q) ≡ [])
      × (booking_violations (others q.id s.reservations) (apply c q) ≡ [])
unfolding update_row
update_row-eq-ok e s c q h = elim (Bool-cases (writes_missing s.columns c.names)) [
  | inl missing ↦ ground arith
  | inr fine ↦
      let p =
        checked-eq-ok e _ (ok (record (apply c q) { version = e.next_xid s.reservations }))
          (rw fine at h) in
      let t = append-eq-nil (row_violations s.columns (apply c q)) _ p.0 in (cc p.1, fine, t.0, t.1)
]

pub matching-eq-some :
    (v : ℕ) (o : Option Reservation) {q : Reservation}
    → matching v o ≡ some q
    → (o ≡ some q) × (q.version ≡ v)
matching-eq-some v none h = cc
matching-eq-some v (some p) h = ground arith

-- A successful UPDATE found the row at the version that was read.
pub update_outcome-eq-ok :
    (e : Engine) (s : Db) (loaded : Reservation) (c : Changes) {row : Reservation}
    → update_outcome e s loaded c ≡ ok row
    → (q : Reservation) × (find_reservation loaded.id s.reservations ≡ some q)
      × (q.version ≡ loaded.version)
      × (update_row e s c q ≡ ok row)
unfolding update_outcome
update_outcome-eq-ok e s loaded c {row} h =
    go (matching loaded.version (find_reservation loaded.id s.reservations)) refl h
  where
    go :
        (o : Option Reservation)
        → matching loaded.version (find_reservation loaded.id s.reservations) ≡ o
        → elim o as (λ _. Outcome Reservation) [
          | none ↦ raised stale_data_error
          | some q ↦ update_row e s c q
        ]
          ≡ ok row
        → (q : Reservation) × (find_reservation loaded.id s.reservations ≡ some q)
          × (q.version ≡ loaded.version)
          × (update_row e s c q ≡ ok row)
    go none m h = cc
    go (some q) m h =
        let p = matching-eq-some loaded.version (find_reservation loaded.id s.reservations) m in
        (q, p.0, p.1, h)
