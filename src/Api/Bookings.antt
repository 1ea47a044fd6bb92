-- ===== src/Api/Bookings.antt =====
-- The requests on reservations keep what other rows refer to, and refer to rows that are there.
use restaurant_reservation_s.Prelude.{
  ℕ, ◌<◌, ◌≡◌, refl, subst, sym, ◌∙◌, Bool, true, false, List, [], ◌∷◌, some, All, arith,
  Bool-cases, Option-cases, inl, inr, ◌==◌, ==→eq, append-eq-nil,
}
use restaurant_reservation_s.Http.{ok, Constraint}
use restaurant_reservation_s.Models.User.{User}
use restaurant_reservation_s.Models.Restaurant.{RestaurantTable}
use restaurant_reservation_s.Models.Reservation.{Reservation, Changes, apply}
use restaurant_reservation_s.Database.{
  Db, Engine, find_user, find_restaurant, find_table, find_reservation,
}
use restaurant_reservation_s.Migration.Phase.{Phase}
use restaurant_reservation_s.Reservations.Requests.{ReservationCreate, ReservationUpdate}
use restaurant_reservation_s.Reservations.Store.{
  is_some, violated, key_violations, insert_outcome, update_outcome, replace,
}
use restaurant_reservation_s.Reservations.Service
use restaurant_reservation_s.Reservations.Service.{
  new_reservation, update_changes, cancel_changes, book,
}
use restaurant_reservation_s.Reservations.Routes.{create_reservation, finish_update, finish_cancel}
use restaurant_reservation_s.Reservations.Inversion.{
  insert_outcome-eq-ok, update_outcome-eq-ok, update_row-eq-ok,
}
use restaurant_reservation_s.Reservations.Cases.{
  with_row, with_replaced, book-cases, edit-cases, respond-cases,
}
use restaurant_reservation_s.Reservations.Invariant.{find-id, replace-All}
use restaurant_reservation_s.Reservations.Edits.{find-All, find-replace}
use restaurant_reservation_s.Api.Integrity.{ReservationRefs, Grows, Grows-refl}

pub record IsBooked (s t : Db) : Type 0 where
  pub grows : Grows s t
  pub refs : All (ReservationRefs s) t.reservations
  pub same_restaurants : t.restaurants ≡ s.restaurants
  pub same_orders : t.orders ≡ s.orders

violated-eq-nil : (b : Bool) (c : Constraint) → violated b c ≡ [] → b ≡ true
violated-eq-nil true c h = refl
violated-eq-nil false c h = cc

key_violations-refs :
    (s : Db) (r : Reservation)
    → key_violations s r ≡ []
    → (is_some (find_user r.user_id s.users) ≡ true)
      × (is_some (find_restaurant r.restaurant_id s.restaurants) ≡ true)
unfolding key_violations
key_violations-refs s r h =
    let a = append-eq-nil (violated (is_some (find_user r.user_id s.users)) _) _ h in
    let b =
      append-eq-nil (violated (is_some (find_restaurant r.restaurant_id s.restaurants)) _) _ a.1 in
    (violated-eq-nil _ _ a.0, violated-eq-nil _ _ b.0)

-- A new id is no id of the table.
find-fresh :
    (e : Engine) (rs : List Reservation) (row : Reservation) (i : ℕ) {q : Reservation}
    → row.id ≡ e.next_reservation_id rs
    → find_reservation i rs ≡ some q
    → find_reservation i (row ∷ rs) ≡ some q
unfolding find_reservation
find-fresh e rs row i {q = q} new found =
    let below : q.id < e.next_reservation_id rs =
      find-All (λ x. x.id < e.next_reservation_id rs) i rs found (e.fresh_reservation_id rs) in
    let same = find-id i rs found in ground (arith, found, new, below, same)

inserted-IsBooked :
    (e : Engine) (p : Phase) (user_id : ℕ) (b : ReservationCreate) (s : Db) (t : RestaurantTable)
    (row : Reservation)
    → All (ReservationRefs s) s.reservations
    → find_table b.restaurant_table_id s.tables ≡ some t
    → t.restaurant_id ≡ b.restaurant_id
    → insert_outcome e s (new_reservation p user_id b) ≡ ok row
    → IsBooked s (with_row s row)
unfolding new_reservation
inserted-IsBooked e p user_id b s t row refs found same h =
    let f = insert_outcome-eq-ok e s (new_reservation p user_id b) h in
    let keys = key_violations-refs s (new_reservation p user_id b) f.4 in
    rw f.0 (record {
      grows = record {
        users = λ i u. u;
        restaurants = λ i r. r;
        tables = refl;
        bookings = λ u i own. (own.0, find-fresh e s.reservations _ i refl own.1, own.2);
      };
      refs = (
        record {
          user = keys.0;
          restaurant = keys.1;
          table = t;
          table_found = found;
          same_restaurant = same;
        },
        refs,
      );
      same_restaurants = refl;
      same_orders = refl;
    })

kept-IsBooked : (s : Db) → All (ReservationRefs s) s.reservations → IsBooked s s
kept-IsBooked s refs = record {
  grows = Grows-refl s;
  refs = refs;
  same_restaurants = refl;
  same_orders = refl;
}

-- An edited row refers to what it referred to.
edited-refs :
    (s : Db) (c : Changes) (q : Reservation) (x : ℕ)
    → ReservationRefs s q
    → ReservationRefs s (record (apply c q) { version = x })
edited-refs s c q x h = record {
  user = h.user;
  restaurant = h.restaurant;
  table = h.table;
  table_found = h.table_found;
  same_restaurant = h.same_restaurant;
}

find-edited :
    (i j : ℕ) (rs : List Reservation) (row q r : Reservation)
    → find_reservation j rs ≡ some q
    → row.id ≡ j
    → row.user_id ≡ q.user_id
    → find_reservation i rs ≡ some r
    → (t : Reservation) × (find_reservation i (replace row rs) ≡ some t) × (t.user_id ≡ r.user_id)
find-edited i j rs row q r there id_kept user_kept found =
    let answer = find-replace i row rs found in
    elim (Bool-cases (row.id == i)) [
      | inl hit ↦
          let here : i ≡ j = sym (==→eq row.id i hit) ∙ id_kept in
          let same : find_reservation i rs ≡ some q =
            subst (λ k. find_reservation k rs ≡ some q) (sym here) there in
          let one : some q ≡ some r = sym same ∙ found in
          (row, rw (answer, hit) refl, user_kept ∙ cc one)
      | inr miss ↦ (r, rw (answer, miss) refl, refl)
    ]

updated-IsBooked :
    (e : Engine) (s : Db) (loaded : Reservation) (c : Changes) (row : Reservation)
    → All (ReservationRefs s) s.reservations
    → update_outcome e s loaded c ≡ ok row
    → IsBooked s (with_replaced s row)
updated-IsBooked e s loaded c row refs h =
    let (q, found, _, u) = update_outcome-eq-ok e s loaded c h in
    let f = update_row-eq-ok e s c q u in
    let new : Reservation = record (apply c q) { version = e.next_xid s.reservations } in
    rw f.0 (record {
      grows = record {
        users = λ i k. k;
        restaurants = λ i k. k;
        tables = refl;
        bookings = λ user_id i own.
            let (t, there, same) =
              find-edited i loaded.id s.reservations new q own.0 found
                (find-id loaded.id s.reservations found) refl own.1 in
            (t, there, same ∙ own.2);
      };
      refs =
          replace-All (ReservationRefs s) new s.reservations
            (edited-refs s c q (e.next_xid s.reservations)
              (find-All (ReservationRefs s) loaded.id s.reservations found refs))
            refs;
      same_restaurants = refl;
      same_orders = refl;
    })

-- The checks before the INSERT: the table is there, and of the restaurant.
create-checked :
    (P : Db → Type 0) (e : Engine) (p : Phase) (user_id : ℕ) (b : ReservationCreate) (s : Db)
    → P s
    → ((t : RestaurantTable)
        → find_table b.restaurant_table_id s.tables ≡ some t
        → t.restaurant_id ≡ b.restaurant_id
        → P (book e p (new_reservation p user_id b) s).1)
    → P (Service.create_reservation e p user_id b s).1
unfolding Service.create_reservation
create-checked P e p user_id b s kept booked =
    elim (Option-cases (find_table b.restaurant_table_id s.tables)) [
      | inl missing ↦ ground (arith, missing, kept)
      | inr (t, found) ↦ elim (Bool-cases (t.restaurant_id == b.restaurant_id)) [
        | inl same ↦
            let there = booked t found (==→eq t.restaurant_id b.restaurant_id same) in
            ground (arith, found, same, kept, there)
        | inr other ↦ ground (arith, found, other, kept)
      ]
    ]

module _ (s : Db) (refs : All (ReservationRefs s) s.reservations) where
  edit-IsBooked :
      (e : Engine) (p : Phase) (loaded : Reservation) (c : Changes)
      → IsBooked s (Service.edit e p loaded c s).1
  edit-IsBooked e p loaded c =
      edit-cases (IsBooked s) e p loaded c s (kept-IsBooked s refs)
        (λ row. updated-IsBooked e s loaded c row refs)

  create-IsBooked :
      (e : Engine) (p : Phase) (user_id : ℕ) (b : ReservationCreate)
      → IsBooked s (Service.create_reservation e p user_id b s).1
  create-IsBooked e p user_id b =
      create-checked (IsBooked s) e p user_id b s (kept-IsBooked s refs) (λ t found same.
        book-cases (IsBooked s) e p (new_reservation p user_id b) s (kept-IsBooked s refs)
          (λ row. inserted-IsBooked e p user_id b s t row refs found same))

  pub books-IsBooked :
      (e : Engine) (p : Phase) (current : User) (b : ReservationCreate)
      → IsBooked s (create_reservation e p current b s).1
  unfolding create_reservation
  books-IsBooked e p current b =
      respond-cases (IsBooked s) p p (Service.create_reservation e p current.id b) s
        (create-IsBooked e p current.id b)

  pub edits-IsBooked :
      (e : Engine) (p : Phase) (loaded : Reservation) (b : ReservationUpdate)
      → IsBooked s (finish_update e p loaded b s).1
  unfolding finish_update Service.update_reservation
  edits-IsBooked e p loaded b =
      respond-cases (IsBooked s) p p (Service.edit e p loaded (update_changes p b)) s
        (edit-IsBooked e p loaded (update_changes p b))

  pub cancels-IsBooked :
      (e : Engine) (p : Phase) (loaded : Reservation) → IsBooked s (finish_cancel e p loaded s).1
  unfolding finish_cancel Service.cancel_reservation
  cancels-IsBooked e p loaded =
      respond-cases (IsBooked s) p p (Service.edit e p loaded cancel_changes) s
        (edit-IsBooked e p loaded cancel_changes)
