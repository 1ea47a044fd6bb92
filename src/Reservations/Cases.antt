-- ===== src/Reservations/Cases.antt =====
-- What a handler can do to the database: a rule for each handler that changes reservations.
use restaurant_reservation_s.Prelude.{ℕ, ◌≡◌, refl, ap, true, ◌∷◌, arith, Bool-cases, inl, inr}
use restaurant_reservation_s.Http.{Outcome, ok, raised, Exception}
use restaurant_reservation_s.Models.Reservation.{Reservation, Changes}
use restaurant_reservation_s.Database.{Db, Engine}
use restaurant_reservation_s.Action.{Action, ◌>>=◌}
use restaurant_reservation_s.Action.Effects.{Reads, >>=-raised, then-Reads}
use restaurant_reservation_s.Migration.Phase.{Phase}
use restaurant_reservation_s.Reservations.Requests.{ReservationCreate}
use restaurant_reservation_s.Reservations.Store.{
  insert_outcome, insert_reservation, after_write, after_update, replace, update_outcome, commit,
}
use restaurant_reservation_s.Reservations.Service
use restaurant_reservation_s.Reservations.Service.{
  new_reservation, cancel_changes, catching, translate_commit, translate_insert, reload, book, edit,
  update_changes, commit_versioned,
}
use restaurant_reservation_s.Reservations.Routes.{respond}

pub catching-raised :
    {A : Type 0} (f : Exception → Exception) (m : Action A) (s t : Db) (x : Exception)
    → m s ≡ (raised x, t)
    → catching f m s ≡ (raised (f x), t)
catching-raised {A} f m s t x h = ap (λ (z : Outcome A × Db). handled z.0 z.1) h
  where
    handled : Outcome A → Db → Outcome A × Db
    handled r u = elim r [ ok a ↦ (ok a, u) | raised y ↦ (raised (f y), u) ]

pub catching-ok :
    {A : Type 0} (f : Exception → Exception) (m : Action A) (s t : Db) (a : A)
    → m s ≡ (ok a, t)
    → catching f m s ≡ (ok a, t)
catching-ok {A} f m s t a h = ap (λ (z : Outcome A × Db). handled z.0 z.1) h
  where
    handled : Outcome A → Db → Outcome A × Db
    handled r u = elim r [ ok b ↦ (ok b, u) | raised y ↦ (raised (f y), u) ]

-- An edit whose commit raises answers with what the handler makes of the exception.
pub edit-raised :
    (e : Engine) (p : Phase) (loaded : Reservation) (c : Changes) (s : Db) (x : Exception)
    → e.emits loaded c ≡ true
    → update_outcome e s loaded c ≡ raised x
    → edit e p loaded c s ≡ (raised (translate_commit x), s)
unfolding edit commit_versioned commit
edit-raised e p loaded c s x sent h =
    >>=-raised (catching translate_commit (commit e loaded c))
      (λ (_ : Unit {0}). reload p loaded.id) s s (translate_commit x)
      (catching-raised translate_commit (commit e loaded c) s s x (ground arith))

abbrev pub with_row : Db → Reservation → Db
with_row s row = record s { reservations = row ∷ s.reservations }

abbrev pub with_replaced : Db → Reservation → Db
with_replaced s row = record s { reservations = replace row s.reservations }

pub respond-Reads : (p q : Phase) (r : Reservation) → Reads (respond p q r)
unfolding respond
respond-Reads p q r s = ground arith

module _ (P : Db → Type 0) where
  pub insert_reservation-cases :
      (e : Engine) (r : Reservation) (s : Db)
      → P s
      → ((row : Reservation) → insert_outcome e s r ≡ ok row → P (with_row s row))
      → P (insert_reservation e r s).1
  unfolding insert_reservation
  insert_reservation-cases e r s same inserted = go (insert_outcome e s r) refl
    where
      go :
          (o : Outcome Reservation)
          → insert_outcome e s r ≡ o
          → P (after_write s o (λ row. with_row s row)).1
      go (raised x) m = same
      go (ok row) m = inserted row m

  pub commit-cases :
      (e : Engine) (loaded : Reservation) (c : Changes) (s : Db)
      → P s
      → ((row : Reservation) → update_outcome e s loaded c ≡ ok row → P (with_replaced s row))
      → P (commit e loaded c s).1
  unfolding commit
  commit-cases e loaded c s same updated = elim (Bool-cases (e.emits loaded c)) [
    | inl sent ↦ rw sent (go (update_outcome e s loaded c) refl)
    | inr kept ↦ rw kept same
  ]
    where
      go : (o : Outcome Reservation) → update_outcome e s loaded c ≡ o → P (after_update s o).1
      go (raised x) m = same
      go (ok row) m = updated row m

  catching-cases :
      {A : Type 0} (f : Exception → Exception) (m : Action A) (s : Db)
      → P (m s).1
      → P (catching f m s).1
  catching-cases {A} f m s h = go (m s).0 (m s).1 h
    where
      go :
          (r : Outcome A) (t : Db)
          → P t
          → P
              (elim r as (λ _. Outcome A × Db) [
                | ok a ↦ (ok a, t)
                | raised x ↦ (raised (f x), t)
              ]).1
      go (ok a) t h = h
      go (raised x) t h = h

  commit_versioned-cases :
      (e : Engine) (loaded : Reservation) (c : Changes) (s : Db)
      → P s
      → ((row : Reservation) → update_outcome e s loaded c ≡ ok row → P (with_replaced s row))
      → P (commit_versioned e loaded c s).1
  unfolding commit_versioned
  commit_versioned-cases e loaded c s same updated =
      catching-cases translate_commit (commit e loaded c) s (commit-cases e loaded c s same updated)

  pub book-cases :
      (e : Engine) (p : Phase) (r : Reservation) (s : Db)
      → P s
      → ((row : Reservation) → insert_outcome e s r ≡ ok row → P (with_row s row))
      → P (book e p r s).1
  unfolding book
  book-cases e p r s same inserted =
      rw
        (then-Reads (catching translate_insert (insert_reservation e r))
          (λ (row : Reservation). reload p row.id) s (λ row t. refl))
        (catching-cases translate_insert (insert_reservation e r) s
          (insert_reservation-cases e r s same inserted))

  pub create-cases :
      (e : Engine) (p : Phase) (user_id : ℕ) (b : ReservationCreate) (s : Db)
      → P s
      → ((row : Reservation)
          → insert_outcome e s (new_reservation p user_id b) ≡ ok row
          → P (with_row s row))
      → P (Service.create_reservation e p user_id b s).1
  unfolding Service.create_reservation
  create-cases e p user_id b s same inserted =
      let booked = book-cases e p (new_reservation p user_id b) s same inserted in ground arith

  pub edit-cases :
      (e : Engine) (p : Phase) (loaded : Reservation) (c : Changes) (s : Db)
      → P s
      → ((row : Reservation) → update_outcome e s loaded c ≡ ok row → P (with_replaced s row))
      → P (edit e p loaded c s).1
  unfolding edit
  edit-cases e p loaded c s same updated =
      rw
        (then-Reads (commit_versioned e loaded c) (λ (_ : Unit {0}). reload p loaded.id) s
          (λ _ t. refl))
        (commit_versioned-cases e loaded c s same updated)

  pub respond-cases :
      (p q : Phase) (m : Action Reservation) (s : Db) → P (m s).1 → P ((m >>= respond p q) s).1
  respond-cases p q m s h = rw (then-Reads m (respond p q) s (λ r t. respond-Reads p q r t)) h
