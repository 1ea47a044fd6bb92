-- ===== src/Reservations/Invariant.antt =====
-- The invariant of the reservations table under every request, in any order and with any interleaving
-- of the reading and the writing half of the edits.
use restaurant_reservation_s.Prelude.{
  ℕ, ◌<◌, ◌≡◌, ◌≢◌, refl, List, [], ◌∷◌, some, All, arith, append-eq-nil,
}
use restaurant_reservation_s.Http.{ok}
use restaurant_reservation_s.Models.User.{User}
use restaurant_reservation_s.Models.Reservation.{
  Reservation, Changes, apply, party_check, time_order_check,
}
use restaurant_reservation_s.Database.{Db, Columns, Engine, find_reservation}
use restaurant_reservation_s.Migration.Phase.{Phase}
use restaurant_reservation_s.Reservations.Requests.{ReservationCreate, ReservationUpdate}
use restaurant_reservation_s.Reservations.Store.{
  row_violations, booking_violations, insert_outcome, update_outcome, others, replace, violated,
}
use restaurant_reservation_s.Reservations.Service
use restaurant_reservation_s.Reservations.Service.{new_reservation, update_changes, cancel_changes}
use restaurant_reservation_s.Reservations.Routes.{create_reservation, finish_update, finish_cancel}
use restaurant_reservation_s.Reservations.Inversion.{
  insert_outcome-eq-ok, update_outcome-eq-ok, update_row-eq-ok,
}
use restaurant_reservation_s.Reservations.Cases.{
  with_row, with_replaced, create-cases, edit-cases, respond-cases,
}
use restaurant_reservation_s.Reservations.Booking.{
  IsFree, NoDoubleBooking, HasUniqueIds, any-IsFree, IsFree-stamped, replace-NoDoubleBooking,
  replace-HasUniqueIds,
}

-- The CHECK constraints hold of a row.
pub record IsSound (r : Reservation) : Type 0 where
  pub party_at_least_one : 0 < r.party_size
  pub party_at_most_twenty : r.party_size < 21
  pub ends_later : r.starts_at < r.ends_at

pub record IsValid (s : Db) : Type 0 where
  pub separate : NoDoubleBooking s.reservations
  pub unique : HasUniqueIds s.reservations
  pub sound : All IsSound s.reservations

row_violations-IsSound : (cs : Columns) (r : Reservation) → row_violations cs r ≡ [] → IsSound r
unfolding row_violations party_check time_order_check
row_violations-IsSound cs r h =
    let a = append-eq-nil (violated (party_check r) _) _ h in
    let b = append-eq-nil (violated (time_order_check r) _) _ a.1 in ground (arith, a.0, b.0)

booking_violations-IsFree :
    (rs : List Reservation) (r : Reservation) → booking_violations rs r ≡ [] → IsFree r rs
unfolding booking_violations
booking_violations-IsFree rs r h = any-IsFree r rs (ground arith)

below-ne : (n : ℕ) (rs : List Reservation) → All (λ r. r.id < n) rs → All (λ r. r.id ≢ n) rs
below-ne n [] h = tt
below-ne n (r ∷ rs) h = (omega arith, below-ne n rs h.1)

inserted-IsValid :
    (e : Engine) (s : Db) (r row : Reservation)
    → IsValid s
    → insert_outcome e s r ≡ ok row
    → IsValid (with_row s row)
inserted-IsValid e s r row v h =
    let f = insert_outcome-eq-ok e s r h in
    let w = row_violations-IsSound s.columns r f.2 in
    rw f.0 (record {
      separate = (
        IsFree-stamped r s.reservations _ _ _ (booking_violations-IsFree s.reservations r f.3),
        v.separate,
      );
      unique = (below-ne _ s.reservations (e.fresh_reservation_id s.reservations), v.unique);
      sound = (
        record {
          party_at_least_one = w.party_at_least_one;
          party_at_most_twenty = w.party_at_most_twenty;
          ends_later = w.ends_later;
        },
        v.sound,
      );
    })

pub find-id :
    (i : ℕ) (rs : List Reservation) {q : Reservation} → find_reservation i rs ≡ some q → q.id ≡ i
unfolding find_reservation
find-id i [] h = cc
find-id i (r ∷ rs) {q = q} h = ground (arith, find-id i rs {q = q})

pub replace-All :
    (P : Reservation → Type 0) (row : Reservation) (rs : List Reservation)
    → P row
    → All P rs
    → All P (replace row rs)
unfolding replace
replace-All P row [] h a = tt
replace-All P row (r ∷ rs) h a = ground (arith, replace-All P row rs h a.1)

updated-IsValid :
    (e : Engine) (s : Db) (loaded : Reservation) (c : Changes) (row : Reservation)
    → IsValid s
    → update_outcome e s loaded c ≡ ok row
    → IsValid (with_replaced s row)
updated-IsValid e s loaded c row v h =
    let (q, found, _, u) = update_outcome-eq-ok e s loaded c h in
    let f = update_row-eq-ok e s c q u in
    let w = row_violations-IsSound s.columns (apply c q) f.2 in
    rw f.0 (record {
      separate = replace-NoDoubleBooking _ s.reservations v.unique v.separate (
          IsFree-stamped (apply c q) (others q.id s.reservations) _ _ _
            (booking_violations-IsFree (others q.id s.reservations) (apply c q) f.3));
      unique = replace-HasUniqueIds _ s.reservations v.unique;
      sound =
          replace-All IsSound _ s.reservations
            (record {
              party_at_least_one = w.party_at_least_one;
              party_at_most_twenty = w.party_at_most_twenty;
              ends_later = w.ends_later;
            })
            v.sound;
    })

-- One request commits. `elsewhere` is any change of the other tables.
pub data Step (s : Db) : Db → Type 0 where
  creates :
      (e : Engine) (p : Phase) (user : User) (b : ReservationCreate)
      → Step s (create_reservation e p user b s).1
  updates :
      (e : Engine) (p : Phase) (loaded : Reservation) (b : ReservationUpdate)
      → Step s (finish_update e p loaded b s).1
  cancels : (e : Engine) (p : Phase) (loaded : Reservation) → Step s (finish_cancel e p loaded s).1
  elsewhere : (t : Db) → t.reservations ≡ s.reservations → t.columns ≡ s.columns → Step s t

pub data Reach (s : Db) : Db → Type 0 where
  here : Reach s s
  next : {t u : Db} → Reach s t → Step t u → Reach s u

-- A property that every successful INSERT and UPDATE keeps is kept by every request.
pub Step-keeps :
    (P : Db → Type 0)
    → ((e : Engine) (s : Db) (r row : Reservation)
        → P s
        → insert_outcome e s r ≡ ok row
        → P (with_row s row))
    → ((e : Engine) (s : Db) (l : Reservation) (c : Changes) (row : Reservation)
        → P s
        → update_outcome e s l c ≡ ok row
        → P (with_replaced s row))
    → ((s t : Db) → P s → t.reservations ≡ s.reservations → t.columns ≡ s.columns → P t)
    → (s t : Db) → P s
    → Step s t
    → P t
unfolding create_reservation finish_update finish_cancel Service.update_reservation
    Service.cancel_reservation
Step-keeps P ins upd els s t v (creates e p user b) =
    respond-cases P p p (Service.create_reservation e p user.id b) s
      (create-cases P e p user.id b s v (λ row. ins e s (new_reservation p user.id b) row v))
Step-keeps P ins upd els s t v (updates e p loaded b) =
    respond-cases P p p (Service.edit e p loaded (update_changes p b)) s (
      edit-cases P e p loaded (update_changes p b) s v
        (λ row. upd e s loaded (update_changes p b) row v))
Step-keeps P ins upd els s t v (cancels e p loaded) =
    respond-cases P p p (Service.edit e p loaded cancel_changes) s
      (edit-cases P e p loaded cancel_changes s v (λ row. upd e s loaded cancel_changes row v))
Step-keeps P ins upd els s t v (elsewhere u same columns) = els s u v same columns

elsewhere-IsValid :
    (s t : Db) → IsValid s → t.reservations ≡ s.reservations → t.columns ≡ s.columns → IsValid t
elsewhere-IsValid s t v same _ = record {
  separate = rw same v.separate;
  unique = rw same v.unique;
  sound = rw same v.sound;
}

-- If no table is booked twice at one time, every reservation has an id of its own and each satisfies
-- the CHECK constraints, then this is still so after any requests, in any order, with any other
-- requests between the reading and the writing half of an edit.
pub Reach-IsValid : (s t : Db) → IsValid s → Reach s t → IsValid t
Reach-IsValid s t v here = v
Reach-IsValid s t v (next {t = u} r st) =
    Step-keeps IsValid inserted-IsValid updated-IsValid elsewhere-IsValid u t
      (Reach-IsValid s u v r) st

-- No request changes the columns of the table.
pub Step-columns : (s t : Db) → Step s t → t.columns ≡ s.columns
Step-columns s t st =
    Step-keeps (λ u. u.columns ≡ s.columns) (λ e u r row h _. h) (λ e u l c row h _. h)
      (λ u w h _ same. rw same h) s t refl st
