-- ===== src/Reservations/Calendar.antt =====
-- An abstract view of the bookings, which forgets ids, names, versions and the order of rows: what
-- slots are taken (app/services/reservations.py, create_reservation and update_reservation).
use mathlib.Core.Quot
use mathlib.Core.Quot.{Quot, Quot-set}
use mathlib.Core.Bool.{Bool-set}
use restaurant_reservation_s.Prelude.{
  ℕ, ◌≡◌, refl, sym, subst, Bool, List, [], ◌∷◌, All, arith, any, Bool-cases, inl, inr,
  if◌then◌else◌,
}
use restaurant_reservation_s.Http.{Outcome, ok, raised, status_code}
use restaurant_reservation_s.Models.Restaurant.{RestaurantTable}
use restaurant_reservation_s.Models.Reservation.{Reservation, conflicts}
use restaurant_reservation_s.Database.{Db, Engine}
use restaurant_reservation_s.Migration.Phase.{Phase}
use restaurant_reservation_s.Migration.Fit.{Fits}
use restaurant_reservation_s.Reservations.Requests.{ReservationCreate}
use restaurant_reservation_s.Reservations.Service.{new_reservation, create_reservation}
use restaurant_reservation_s.Reservations.Inversion.{stored}
use restaurant_reservation_s.Reservations.Cases.{with_row}
use restaurant_reservation_s.Reservations.Outcomes.{
  IsAcceptable, IsAcceptable-with_row, create_reservation-conflict_or_stored,
}

-- Two tables take the same slots.
abbrev pub SameSlots : List Reservation → List Reservation → Type 0
SameSlots rs qs = (r : Reservation) → any (conflicts r) rs ≡ any (conflicts r) qs

abbrev pub Calendar : Type 0
Calendar = Quot SameSlots

abbrev pub calendar_of : Db → Calendar
calendar_of s = Quot.mk s.reservations

pub SameSlots-cons :
    (q : Reservation) (rs qs : List Reservation) → SameSlots rs qs → SameSlots (q ∷ rs) (q ∷ qs)
SameSlots-cons q rs qs h r = ground (arith, h r)

unfoldable pub is_taken : Reservation → Calendar → Bool
is_taken r = Quot.lift Bool-set (λ rs. any (conflicts r) rs) (λ rs qs h. h r)

unfoldable pub put : Reservation → Calendar → Calendar
put q =
    Quot.lift Quot-set (λ rs. Quot.mk (q ∷ rs)) (λ rs qs h. Quot.sound (SameSlots-cons q rs qs h))

-- The specification of booking: a slot that is free is taken, and one that is taken is refused.
unfoldable pub book : Reservation → Calendar → Calendar
book r c = if is_taken r c then c else put r c

abbrev pub book_code : Reservation → Calendar → ℕ
book_code r c = if is_taken r c then 409 else 201

-- One POST: which engine, who, and what; `table` is the table that it names.
pub record Post : Type 0 where
  pub engine : Engine
  pub user_id : ℕ
  pub body : ReservationCreate
  pub table : RestaurantTable

abbrev pub code_of : Outcome Reservation → ℕ
code_of (ok row) = 201
code_of (raised x) = let r : Outcome Reservation = raised x in status_code r

-- The POSTs in the order in which they commit, with the answers and the database afterwards.
unfoldable pub run_posts : Phase → List Post → Db → List ℕ × Db
run_posts p [] s = ([], s)
run_posts p (q ∷ qs) s =
    let (r, t) = create_reservation q.engine p q.user_id q.body s in
    let (codes, u) = run_posts p qs t in (code_of r ∷ codes, u)

-- The same by the specification.
unfoldable pub book_all : Phase → List Post → Calendar → List ℕ × Calendar
book_all p [] c = ([], c)
book_all p (q ∷ qs) c =
    let r = new_reservation p q.user_id q.body in
    let (codes, d) = book_all p qs (book r c) in (book_code r c ∷ codes, d)

calendar-stored :
    (e : Engine) (s : Db) (r : Reservation)
    → calendar_of (with_row s (stored e s r)) ≡ put r (calendar_of s)
unfolding conflicts put
calendar-stored e s r = Quot.sound (λ x. refl)

module _ (p : Phase) where
  abbrev row_of : Post → Reservation
  row_of q = new_reservation p q.user_id q.body

  abbrev answer : Post → Db → Outcome Reservation × Db
  answer q s = create_reservation q.engine p q.user_id q.body s

  -- One POST does what the specification says.
  answer-book :
      (q : Post) (s : Db)
      → Fits p s.columns
      → IsAcceptable s q.user_id q.body q.table
      → (code_of (answer q s).0 ≡ book_code (row_of q) (calendar_of s))
        × (calendar_of (answer q s).1 ≡ book (row_of q) (calendar_of s))
  unfolding book is_taken status_code
  answer-book q s f a =
      let whole = create_reservation-conflict_or_stored q.engine p q.user_id q.body s q.table f a in
      elim (Bool-cases (any (conflicts (row_of q)) s.reservations)) [
        | inl busy ↦ rw (whole, busy) (refl, refl)
        | inr free ↦ rw (whole, free) (refl, calendar-stored q.engine s (row_of q))
      ]

  -- A POST leaves the requests that follow acceptable, and the columns as they are.
  answer-IsAcceptable :
      (q r : Post) (s : Db)
      → Fits p s.columns
      → IsAcceptable s q.user_id q.body q.table
      → IsAcceptable s r.user_id r.body r.table
      → IsAcceptable (answer q s).1 r.user_id r.body r.table
  answer-IsAcceptable q r s f a b =
      let whole = create_reservation-conflict_or_stored q.engine p q.user_id q.body s q.table f a in
      elim (Bool-cases (any (conflicts (row_of q)) s.reservations)) [
        | inl busy ↦ rw (whole, busy) b
        | inr free ↦ rw (whole, free) (IsAcceptable-with_row s r.user_id r.body r.table _ b)
      ]

  answer-All :
      (q : Post) (s : Db) (qs : List Post)
      → Fits p s.columns
      → IsAcceptable s q.user_id q.body q.table
      → All (λ r. IsAcceptable s r.user_id r.body r.table) qs
      → All (λ r. IsAcceptable (answer q s).1 r.user_id r.body r.table) qs
  answer-All q s [] f a h = tt
  answer-All q s (r ∷ qs) f a h = (answer-IsAcceptable q r s f a h.0, answer-All q s qs f a h.1)

  answer-columns :
      (q : Post) (s : Db)
      → Fits p s.columns
      → IsAcceptable s q.user_id q.body q.table
      → (answer q s).1.columns ≡ s.columns
  answer-columns q s f a =
      let whole = create_reservation-conflict_or_stored q.engine p q.user_id q.body s q.table f a in
      ground (arith, whole)

  -- In a phase that fits the schema, for any sequence of requests that pass the checks, the service is
  -- an implementation of the calendar, in which a request takes a slot that is free and is refused one
  -- that is not: the answers (201 or 409) are those of the calendar, and so are the slots that are
  -- taken afterwards, whatever ids, names and rows are behind them.
  pub run_posts-book_all :
      (qs : List Post) (s : Db)
      → Fits p s.columns
      → All (λ q. IsAcceptable s q.user_id q.body q.table) qs
      → ((run_posts p qs s).0 ≡ (book_all p qs (calendar_of s)).0)
        × (calendar_of (run_posts p qs s).1 ≡ (book_all p qs (calendar_of s)).1)
  unfolding run_posts book_all
  run_posts-book_all [] s f a = (refl, refl)
  run_posts-book_all (q ∷ qs) s f a =
      let now = answer-book q s f a.0 in
      let fits = subst (Fits p) (sym (answer-columns q s f a.0)) f in
      let later = run_posts-book_all qs (answer q s).1 fits (answer-All q s qs f a.0 a.1) in
      rw (now.0, later.0, ← now.1) (refl, later.1)
