-- ===== src/Reservations/Deleting.antt =====
-- Every answer of DELETE /reservations/{id} (app/routers/reservations.py, cancel_reservation).
use restaurant_reservation_s.Prelude.{
  ◌<◌, ◌^◌, true, List, ◌⊎◌, inl, inr, Option-cases, Bool-cases, not, ◌||◌, ◌==◌, ℕ, ◌≡◌, refl, sym,
  subst, false, [], Option, none, some, arith,
}
use restaurant_reservation_s.Http.{
  http_exception, Detail, reservation_not_found, not_your_reservation, reservation_changed, Outcome,
  ok, raised, status_code,
}
use restaurant_reservation_s.Names.{Text}
use restaurant_reservation_s.Models.User.{User, role_eq, customer}
use restaurant_reservation_s.Models.Reservation.{Reservation, cancelled}
use restaurant_reservation_s.Database.{Db, Engine, find_reservation}
use restaurant_reservation_s.Action.{◌>>◌, reading, pure}
use restaurant_reservation_s.Migration.Phase.{Phase}
use restaurant_reservation_s.Migration.Fit.{Fits}
use restaurant_reservation_s.Reservations.Store.{replace, row_violations, select_reservation}
use restaurant_reservation_s.Reservations.Etag.{check_if_match, seen, split_commas}
use restaurant_reservation_s.Reservations.Service.{cancel_changes}
use restaurant_reservation_s.Reservations.Routes.{
  Response, out, to_out, load_owned, begin_edit, finish_cancel, cancel_reservation,
}
use restaurant_reservation_s.Reservations.Invariant.{IsValid}
use restaurant_reservation_s.Reservations.Edited.{InPlace, replace-InPlace}
use restaurant_reservation_s.Reservations.Changing.{
  MayChange, at_id, dropped, dropped-written, kept-written,
}

-- Forbidden, not found, or changed since it was read.
abbrev pub IsTurned : ℕ → Type 0
IsTurned c = (c ≡ 403) ⊎ ((c ≡ 404) ⊎ (c ≡ 412))

-- The row that the first half of an edit loads, or a refusal.
data Loaded (i : ℕ) (s : Db) : Outcome Reservation × Db → Type 0 where
  loads :
      {row : Reservation} → find_reservation i s.reservations ≡ some row → Loaded i s (ok row, s)
  turns :
      (status : ℕ) (d : Detail) → IsTurned status → Loaded i s (raised (http_exception status d), s)

load_owned-Loaded :
    (p : Phase) (i : ℕ) (user : User) (s : Db)
    → Fits p s.columns
    → Loaded i s (load_owned p i user s)
unfolding load_owned select_reservation
load_owned-Loaded p i user s f =
    let reads = f.reads in
    elim (Option-cases (find_reservation i s.reservations)) [
      | inl missing ↦
          let answer : load_owned p i user s
              ≡ (raised (http_exception 404 reservation_not_found), s) =
            ground (arith, reads, missing) in
          subst (Loaded i s) (sym answer) (turns 404 reservation_not_found (inr (inl refl)))
      | inr (row, there) ↦
          elim (Bool-cases (not (role_eq user.role customer) || row.user_id == user.id)) [
            | inl fine ↦
                let answer : load_owned p i user s ≡ (ok row, s) =
                  ground (arith, reads, there, fine) in
                subst (Loaded i s) (sym answer) (loads there)
            | inr foreign ↦
                let answer : load_owned p i user s
                    ≡ (raised (http_exception 403 not_your_reservation), s) =
                  ground (arith, reads, there, foreign) in
                subst (Loaded i s) (sym answer) (turns 403 not_your_reservation (inl refl))
          ]
    ]

check_if_match-cases :
    (row : Reservation) (if_match : Option Text)
    → (check_if_match row if_match false ≡ ok tt)
      ⊎ (check_if_match row if_match false ≡ raised (http_exception 412 reservation_changed))
unfolding check_if_match
check_if_match-cases row none = inl refl
check_if_match-cases row (some tags) = elim (Bool-cases (seen row.version (split_commas tags))) [
  | inl hit ↦ rw hit (inl refl)
  | inr miss ↦ rw miss (inr refl)
]

begin_edit-Loaded :
    (p : Phase) (i : ℕ) (user : User) (if_match : Option Text) (s : Db)
    → Fits p s.columns
    → Loaded i s (begin_edit p i user if_match false s)
unfolding begin_edit
begin_edit-Loaded p i user if_match s f =
    go (load_owned p i user s) (load_owned-Loaded p i user s f)
  where
    rest : Outcome Reservation × Db → Outcome Reservation × Db
    rest x = elim x.0 [
      | ok row ↦ (reading (λ t. check_if_match row if_match false) >> pure row) x.1
      | raised y ↦ (raised y, x.1)
    ]

    go : (x : Outcome Reservation × Db) → Loaded i s x → Loaded i s (rest x)
    go x (loads {row = row} there) = elim (check_if_match-cases row if_match) [
      | inl fine ↦ rw fine (loads there)
      | inr changed ↦ rw changed (turns 412 reservation_changed (inr (inr refl)))
    ]
    go x (turns status d r) = turns status d r

-- In a phase that fits the schema of a valid database whose reservations satisfy their constraints and
-- can be read in the phase, DELETE of an id that fits BIGINT, by any user, with any If-Match header or
-- none, never ends in a 500 while neither the phase nor the database changes from elsewhere: a
-- reservation is answered with a success, and the row that is cancelled under a new version, and
-- otherwise the same, stands in its place where an UPDATE is sent, while nothing changes where none
-- is; or the answer is 403, 404 or 412, and nothing has changed.
pub cancel_reservation-no_500 :
    (e : Engine) (p : Phase) (i : ℕ) (user : User) (if_match : Option Text) (s : Db)
    → i < 2 ^ 63
    → Fits p s.columns
    → IsValid s
    → ((j : ℕ) (row : Reservation)
        → find_reservation j s.reservations ≡ some row
        → (row_violations s.columns row ≡ [])
          × ((name : Text) × (to_out p p row ≡ ok (out row name))))
    → (IsTurned (status_code (cancel_reservation e p i user if_match s).0)
        × ((cancel_reservation e p i user if_match s).1 ≡ s))
      ⊎ ((row : Reservation) × (find_reservation i s.reservations ≡ some row)
          × (status_code (cancel_reservation e p i user if_match s).0 ≡ 200)
          × (((e.emits row cancel_changes ≡ true)
                × ((after : List Reservation) × ((cancel_reservation e p i user if_match s).1
                      ≡ record s { reservations = after })
                    × InPlace row
                        (record row { status = cancelled; version = e.next_xid s.reservations })
                        s.reservations
                        after))
              ⊎ ((e.emits row cancel_changes ≡ false)
                  × ((cancel_reservation e p i user if_match s).1 ≡ s))))
unfolding cancel_reservation status_code
cancel_reservation-no_500 e p i user if_match s _ f v fine =
    go (begin_edit p i user if_match false s) (begin_edit-Loaded p i user if_match s f)
  where
    rest : Outcome Reservation × Db → Outcome Response × Db
    rest x = elim x.0 [ ok row ↦ finish_cancel e p row x.1 | raised y ↦ (raised y, x.1) ]

    go :
        (x : Outcome Reservation × Db)
        → Loaded i s x
        → (IsTurned (status_code (rest x).0) × ((rest x).1 ≡ s))
          ⊎ ((row : Reservation) × (find_reservation i s.reservations ≡ some row)
              × (status_code (rest x).0 ≡ 200)
              × (((e.emits row cancel_changes ≡ true)
                    × ((after : List Reservation) × ((rest x).1 ≡ record s { reservations = after })
                        × InPlace row
                            (record row { status = cancelled; version = e.next_xid s.reservations })
                            s.reservations
                            after))
                  ⊎ ((e.emits row cancel_changes ≡ false) × ((rest x).1 ≡ s))))
    go x (turns status d r) = inl (r, refl)
    go x (loads {row = row} there) =
        let (sound, (name, readable)) = fine i row there in
        let m : MayChange e p user i s row name = record {
          fits = f;
          valid = v;
          found = there;
          fine = sound;
          readable = readable;
        } in
        elim (Bool-cases (e.emits row cancel_changes)) [
          | inl sent ↦ inr (
            row,
            there,
            rw (dropped-written m sent) refl,
            inl (
              sent,
              (
                replace (dropped m) s.reservations,
                rw (dropped-written m sent) refl,
                replace-InPlace row (dropped m) s.reservations (at_id m),
              ),
            ),
          )
          | inr unsent ↦ inr (
            row,
            there,
            rw (kept-written m unsent) refl,
            inr (unsent, rw (kept-written m unsent) refl),
          )
        ]
