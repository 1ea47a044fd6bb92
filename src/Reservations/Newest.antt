-- ===== src/Reservations/Newest.antt =====
-- What GET /reservations lists (app/services/reservations.py, select_my_bookings).
use restaurant_reservation_s.Prelude.{
  ℕ, ◌≤◌, ◌≡◌, refl, subst, true, false, List, [], ◌∷◌, ◌++◌, Option, none, some, length, ◌⊎◌, inl,
  inr, arith, All, select, take, ◌==◌, if◌then◌else◌, Option-cases,
}
use mathlib.Core.List.{Perm}
use restaurant_reservation_s.Http.{ok}
use restaurant_reservation_s.Models.Restaurant.{Restaurant}
use restaurant_reservation_s.Models.Reservation.{Reservation}
use restaurant_reservation_s.Database.{Db, find_restaurant}
use restaurant_reservation_s.Migration.Phase.{Phase}
use restaurant_reservation_s.Migration.Fit.{Fits}
use restaurant_reservation_s.Paging.{order_by}
use restaurant_reservation_s.Paging.Ordered.{IsOrdered, limited}
use restaurant_reservation_s.Reservations.Listing.{
  Booking, newer_booking, own_bookings, join_restaurants, select_my_bookings,
}

newer_booking_total : (a b : Booking) → newer_booking a b ≡ false → newer_booking b a ≡ true
newer_booking_total a b h = ground arith

newer_booking_trans :
    (a b c : Booking)
    → newer_booking a b ≡ true
    → newer_booking b c ≡ true
    → newer_booking a c ≡ true
newer_booking_trans a b c h k = ground arith

-- The latest start first.
abbrev pub IsNewestFirst : List Booking → Type 0
IsNewestFirst [] = Unit
IsNewestFirst (b ∷ bs) =
    All (λ (c : Booking). c.reservation.starts_at ≤ b.reservation.starts_at) bs × IsNewestFirst bs

later_starts :
    (b : Booking) (bs : List Booking)
    → All (λ c. newer_booking b c ≡ true) bs
    → All (λ (c : Booking). c.reservation.starts_at ≤ b.reservation.starts_at) bs
later_starts b [] h = tt
later_starts b (c ∷ cs) h = (ground (arith, h.0), later_starts b cs h.1)

IsOrdered-IsNewestFirst : (bs : List Booking) → IsOrdered newer_booking bs → IsNewestFirst bs
IsOrdered-IsNewestFirst [] h = tt
IsOrdered-IsNewestFirst (b ∷ bs) h = (later_starts b bs h.0, IsOrdered-IsNewestFirst bs h.1)

-- What the list is to show of a reservation: nothing of another user's, or of a restaurant that is
-- not there.
abbrev pub shown_of : ℕ → Reservation → Option Restaurant → List Booking
shown_of user_id r none = []
shown_of user_id r (some t) =
    if r.user_id == user_id then record { reservation = r; restaurant_name = t.name } ∷ [] else []

-- Each of the reservations, in the order of the table.
abbrev pub shown_bookings : ℕ → List Restaurant → List Reservation → List Booking
shown_bookings user_id ts [] = []
shown_bookings user_id ts (r ∷ rs) =
    shown_of user_id r (find_restaurant r.restaurant_id ts) ++ shown_bookings user_id ts rs

joined-shown :
    (user_id : ℕ) (ts : List Restaurant) (rs : List Reservation)
    → join_restaurants ts (select (λ r. r.user_id == user_id) rs) ≡ shown_bookings user_id ts rs
unfolding join_restaurants
joined-shown user_id ts [] = refl
joined-shown user_id ts (r ∷ rs) =
    let rest = joined-shown user_id ts rs in
    elim (Option-cases (find_restaurant r.restaurant_id ts)) [
      | inl missing ↦ ground (arith, missing, rest)
      | inr (t, there) ↦ ground (arith, there, rest)
    ]

-- In a phase that fits the schema, the list of a user's bookings has at most `limit` rows, and
-- together with the bookings that it leaves out it is a rearrangement of the user's reservations, each
-- with the name of its restaurant, the latest start first; it leaves none out unless it has `limit`
-- rows.
pub select_my_bookings-newest :
    (p : Phase) (user_id limit : ℕ) (s : Db)
    → Fits p s.columns
    → (rows rest : List Booking) × (select_my_bookings p user_id limit s ≡ ok rows)
      × Perm (rows ++ rest) (shown_bookings user_id s.restaurants s.reservations)
      × IsNewestFirst (rows ++ rest)
      × (length rows ≤ limit)
      × ((rest ≡ []) ⊎ (length rows ≡ limit))
unfolding select_my_bookings
select_my_bookings-newest p user_id limit s f =
    let (rest, same, ordered, short, none_left) =
      limited newer_booking newer_booking_total newer_booking_trans limit
        (own_bookings user_id s) in
    let rows = take limit (order_by newer_booking (own_bookings user_id s)) in
    (
      rows,
      rest,
      rw f.reads refl,
      subst (λ l. Perm (rows ++ rest) l) (joined-shown user_id s.restaurants s.reservations) same,
      IsOrdered-IsNewestFirst (rows ++ rest) ordered,
      short,
      none_left,
    )
