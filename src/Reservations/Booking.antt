-- ===== src/Reservations/Booking.antt =====
-- Two rows of the reservations table never hold one table at one time, after any INSERT or UPDATE
-- (the no_double_booking constraint and the service that writes under it).
use restaurant_reservation_s.Prelude.{
  ℕ, ◌≡◌, ◌≢◌, refl, false, List, [], ◌∷◌, ◌==◌, any, All, arith, Bool-cases, ==→eq, ==-refl, inl,
  inr,
}
use restaurant_reservation_s.Models.Reservation.{Reservation, conflicts}
use restaurant_reservation_s.Reservations.Store.{replace, others}

-- A row conflicts with no row of a list.
abbrev pub IsFree : Reservation → List Reservation → Type 0
IsFree r rs = All (λ q. conflicts r q ≡ false) rs

-- No two rows of the table conflict.
abbrev pub NoDoubleBooking : List Reservation → Type 0
NoDoubleBooking [] = Unit
NoDoubleBooking (r ∷ rs) = IsFree r rs × NoDoubleBooking rs

-- Every row has an id of its own.
abbrev pub HasUniqueIds : List Reservation → Type 0
HasUniqueIds [] = Unit
HasUniqueIds (r ∷ rs) = All (λ q. q.id ≢ r.id) rs × HasUniqueIds rs

pub conflicts_comm : (r q : Reservation) → conflicts r q ≡ conflicts q r
unfolding conflicts
conflicts_comm r q = ground arith

pub any-IsFree :
    (r : Reservation) (rs : List Reservation) → any (conflicts r) rs ≡ false → IsFree r rs
any-IsFree r [] h = tt
any-IsFree r (q ∷ rs) h = ground (arith, any-IsFree r rs)

pub any_of_IsFree :
    (r : Reservation) (rs : List Reservation) → IsFree r rs → any (conflicts r) rs ≡ false
any_of_IsFree r [] h = refl
any_of_IsFree r (q ∷ rs) h = ground (arith, any_of_IsFree r rs h.1)

-- `conflicts` looks at neither the id nor the version nor created_at.
pub conflicts-stamped :
    (r q : Reservation) (i v t : ℕ)
    → conflicts (record r { id = i; version = v; created_at = t }) q ≡ conflicts r q
unfolding conflicts
conflicts-stamped r q i v t = refl

pub IsFree-stamped :
    (r : Reservation) (rs : List Reservation) (i v t : ℕ)
    → IsFree r rs
    → IsFree (record r { id = i; version = v; created_at = t }) rs
IsFree-stamped r [] i v t h = tt
IsFree-stamped r (q ∷ rs) i v t h =
    (rw (conflicts-stamped r q i v t) h.0, IsFree-stamped r rs i v t h.1)

pub others-fresh : (i : ℕ) (rs : List Reservation) → All (λ q. q.id ≢ i) rs → others i rs ≡ rs
unfolding others
others-fresh i [] h = refl
others-fresh i (q ∷ rs) h = ground (arith, others-fresh i rs h.1)

IsFree-replace :
    (q row : Reservation) (rs : List Reservation)
    → IsFree q rs
    → conflicts q row ≡ false
    → IsFree q (replace row rs)
unfolding replace
IsFree-replace q row [] h c = tt
IsFree-replace q row (r ∷ rs) h c = ground (arith, IsFree-replace q row rs h.1 c)

-- Writing one row that is free among the others keeps the table free of double bookings.
pub replace-NoDoubleBooking :
    (row : Reservation) (rs : List Reservation)
    → HasUniqueIds rs
    → NoDoubleBooking rs
    → IsFree row (others row.id rs)
    → NoDoubleBooking (replace row rs)
unfolding replace others
replace-NoDoubleBooking row [] u n f = tt
replace-NoDoubleBooking row (q ∷ rs) u n f = elim (Bool-cases (q.id == row.id)) [
  | inl same ↦
      rw same
        ((rw (others-fresh row.id rs (rw (==→eq q.id row.id same) at u.0)) at (rw same at f)), n.1)
  | inr other ↦
      let g = rw other at f in
      rw other (
        IsFree-replace q row rs n.0 (rw conflicts_comm g.0),
        replace-NoDoubleBooking row rs u.1 n.1 g.1,
      )
]

replace-ne :
    (k : ℕ) (row : Reservation) (rs : List Reservation)
    → row.id ≢ k
    → All (λ q. q.id ≢ k) rs
    → All (λ q. q.id ≢ k) (replace row rs)
unfolding replace
replace-ne k row [] h a = tt
replace-ne k row (q ∷ rs) h a = ground (arith, replace-ne k row rs h a.1)

pub replace-HasUniqueIds :
    (row : Reservation) (rs : List Reservation) → HasUniqueIds rs → HasUniqueIds (replace row rs)
unfolding replace
replace-HasUniqueIds row [] u = tt
replace-HasUniqueIds row (q ∷ rs) u = elim (Bool-cases (q.id == row.id)) [
  | inl same ↦ rw same (rw (==→eq q.id row.id same) at u)
  | inr other ↦ rw other (
    replace-ne q.id row rs (λ e. cc (other, ==-refl q.id, e)) u.0,
    replace-HasUniqueIds row rs u.1,
  )
]
