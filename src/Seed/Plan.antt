-- ===== src/Seed/Plan.antt =====
-- The seeded reservations keep the rules of the table (scripts/seed.py).
use restaurant_reservation_s.Prelude.{
  ℕ, zero, suc, ◌≤◌, ◌<◌, ◌≡◌, ◌≢◌, true, false, List, [], ◌∷◌, All, Bool-cases, inl, inr, ◌⊎◌,
}
use restaurant_reservation_s.Database.{Columns}
use restaurant_reservation_s.Seed.{Draw, is_taken, accepted}

-- What randint gives: a slot of the list, and a party for the table.
pub record IsDraw (d : Draw) : Type 0 where
  pub slot_in_list : d.slot < 6
  pub someone : 0 < d.party_size
  pub at_most_eight : d.party_size ≤ 8

abbrev DiffersFrom : Draw → Draw → Type 0
DiffersFrom d q = (q.table_id ≢ d.table_id) ⊎ ((q.day ≢ d.day) ⊎ (q.slot ≢ d.slot))

-- The draws have keys of their own.
abbrev AreApart : List Draw → Type 0
AreApart [] = Unit
AreApart (d ∷ ds) = All (DiffersFrom d) ds × AreApart ds

pub accepted-All :
    (P : Draw → Type 0) (n : ℕ) (draws taken : List Draw)
    → All P draws
    → All P taken
    → All P (accepted n draws taken)
unfolding accepted
accepted-All P zero draws taken h a = a
accepted-All P (suc n) [] taken h a = a
accepted-All P (suc n) (d ∷ draws) taken h a = elim (Bool-cases (is_taken d taken)) [
  | inl hit ↦ rw (hit, accepted) (accepted-All P (suc n) draws taken h.1 a)
  | inr free ↦ rw (free, accepted) (accepted-All P n draws (d ∷ taken) h.1 (h.0, a))
]

-- The schemas in which the row of a draw has a value for each column that is NOT NULL: guest_name is
-- there and the new columns are not, or can be NULL; or it has been dropped.
abbrev pub TakesSeed : Columns → Type 0
TakesSeed cs =
    ((cs.guest_name_present ≡ true)
      × ((cs.new_columns_present ≡ false)
          ⊎ ((cs.first_name_nullable ≡ true) × (cs.last_name_nullable ≡ true))))
    ⊎ (cs.guest_name_present ≡ false)
