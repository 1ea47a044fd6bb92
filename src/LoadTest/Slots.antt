-- ===== src/LoadTest/Slots.antt =====
-- The tables that a customer of the load test can book (loadtest/locustfile.py, book, on the answer of
-- app/routers/restaurants.py, check_availability).
use restaurant_reservation_s.Prelude.{
  ℕ, ◌≤◌, ◌<◌, ◌≢◌, ◌==◌, ◌&&◌, not, ◌≡◌, refl, true, false, List, [], ◌∷◌, none, some, map, select,
  arith, All, Bool-cases, inl, inr, ◌⊎◌,
}
use restaurant_reservation_s.Models.Restaurant.{RestaurantTable}
use restaurant_reservation_s.Models.Reservation.{
  Reservation, ReservationStatus, pending, confirmed, cancelled, is_cancelled, ranges_overlap,
}
use restaurant_reservation_s.Database.{Db, find_table}
use restaurant_reservation_s.Restaurants.{slot, taken, offers}
use restaurant_reservation_s.LoadTest.{first_free}

-- A reservation that is not cancelled stands on the table within the window.
abbrev pub IsBusy : ℕ → ℕ → ℕ → List Reservation → Type 0
IsBusy table_id a b [] = ⊥
IsBusy table_id a b (r ∷ rs) =
    ((r.restaurant_table_id ≡ table_id)
      × (r.status ≢ cancelled)
      × (r.starts_at < b)
      × (a < r.ends_at))
    ⊎ IsBusy table_id a b rs

stands : (o : ReservationStatus) → is_cancelled o ≡ false → o ≢ cancelled
stands pending h = λ same. cc same
stands confirmed h = λ same. cc same
stands cancelled h = cc h

taken-IsBusy :
    (table_id a b : ℕ) (rs : List Reservation)
    → taken table_id a b rs ≡ true
    → IsBusy table_id a b rs
unfolding taken
taken-IsBusy table_id a b [] h = cc h
taken-IsBusy table_id a b (r ∷ rs) h =
    elim (Bool-cases (
      r.restaurant_table_id == table_id
      && not (is_cancelled r.status)
      && ranges_overlap r.starts_at r.ends_at a b)) [
        | inl hit ↦ inl (
          ground (arith, hit),
          stands r.status (ground (arith, hit)),
          ground (arith, hit),
          ground (arith, hit),
        )
        | inr miss ↦ inr (taken-IsBusy table_id a b rs (ground (arith, miss, h)))
      ]

-- Every table of the restaurant that can be booked for two is busy.
abbrev pub AllBusy : ℕ → ℕ → ℕ → Db → Type 0
AllBusy rid a b s =
    All
      (λ (t : RestaurantTable).
        t.restaurant_id ≡ rid
        → t.is_active ≡ true
        → 2 ≤ t.capacity
        → IsBusy t.id a b s.reservations)
      s.tables

pub select-AllBusy :
    (rid a b : ℕ) (rs : List Reservation) (ts : List RestaurantTable)
    → All (λ t. taken t.id a b rs ≡ true) (select (offers rid 2) ts)
    → All
        (λ (t : RestaurantTable).
          t.restaurant_id ≡ rid → t.is_active ≡ true → 2 ≤ t.capacity → IsBusy t.id a b rs)
        ts
select-AllBusy rid a b rs [] h = tt
select-AllBusy rid a b rs (t ∷ ts) h = elim (Bool-cases (offers rid 2 t)) [
  | inl hit ↦
      let h' = rw hit at h in
      ((λ _ _ _. taken-IsBusy t.id a b rs h'.0), select-AllBusy rid a b rs ts h'.1)
  | inr miss ↦ (
    (λ here active seats. absurd (ground (arith, miss, here, active, seats))),
    select-AllBusy rid a b rs ts (rw miss at h),
  )
]

-- What the query asks of a table, and that it is found.
pub record IsOffered (rid : ℕ) (s : Db) (t : RestaurantTable) : Type 0 where
  pub found : find_table t.id s.tables ≡ some t
  pub here : t.restaurant_id ≡ rid
  pub active : t.is_active ≡ true
  pub seats : 2 ≤ t.capacity

pub select-IsOffered :
    (rid : ℕ) (s : Db) (ts : List RestaurantTable)
    → All (λ t. find_table t.id s.tables ≡ some t) ts
    → All (IsOffered rid s) (select (offers rid 2) ts)
select-IsOffered rid s [] h = tt
select-IsOffered rid s (t ∷ ts) h = elim (Bool-cases (offers rid 2 t)) [
  | inl hit ↦ rw hit (
    record {
      found = h.0;
      here = ground (arith, hit);
      active = ground (arith, hit);
      seats = ground (arith, hit);
    },
    select-IsOffered rid s ts h.1,
  )
  | inr miss ↦ rw miss (select-IsOffered rid s ts h.1)
]

-- Either no slot is free, or the first free one is that of an offered table without a booking.
pub first_free-cases :
    (P : RestaurantTable → Type 0) (a b : ℕ) (s : Db) (ts : List RestaurantTable)
    → All P ts
    → ((first_free (map (slot a b s) ts) ≡ none)
        × All (λ t. taken t.id a b s.reservations ≡ true) ts)
      ⊎ ((t : RestaurantTable) × (first_free (map (slot a b s) ts) ≡ some t.id)
          × P t
          × (taken t.id a b s.reservations ≡ false))
unfolding slot
first_free-cases P a b s [] h = inl (refl, tt)
first_free-cases P a b s (t ∷ ts) h = elim (Bool-cases (taken t.id a b s.reservations)) [
  | inl busy ↦ elim (first_free-cases P a b s ts h.1) [
    | inl (missing, rest) ↦ rw busy (inl (missing, (refl, rest)))
    | inr free ↦ rw busy (inr free)
  ]
  | inr free ↦ rw free (inr (t, refl, h.0, free))
]
