-- ===== src/Backfill/Unlocked.antt =====
-- A pass that meets no locked row fills every row.
use restaurant_reservation_s.Prelude.{
  ℕ, zero, suc, ◌<◌, ◌≡◌, refl, Bool, true, false, not, ◌&&◌, List, [], ◌∷◌, ◌++◌, some, ◌==◌, ltb,
  leb, any, select, take, drop, All, All-map, arith, Bool-cases, List-cases, inl, inr, ◌⊎◌, ==-refl,
  ==→eq, subst, sym,
}
use restaurant_reservation_s.Models.Reservation.{Reservation}
use restaurant_reservation_s.Paging.{order_by}
use restaurant_reservation_s.Paging.Ordered.{
  IsOrdered, All-append, order_by-All, order_by-IsOrdered, take-drop,
}
use restaurant_reservation_s.Backfill.{
  is_awaiting, awaiting, batch, is_target, fill, last_of, run_pass,
}
use restaurant_reservation_s.Backfill.Passes.{filled_row-awaiting}

abbrev by_id : Reservation → Reservation → Bool
by_id r q = leb r.id q.id

by_id_total : (r q : Reservation) → by_id r q ≡ false → by_id q r ≡ true
by_id_total r q h = ground arith

by_id_trans : (r q t : Reservation) → by_id r q ≡ true → by_id q t ≡ true → by_id r t ≡ true
by_id_trans r q t h k = ground arith

-- Every row up to this id has its names.
abbrev pub IsBehind : ℕ → List Reservation → Type 0
IsBehind last_id = All (λ r. (is_awaiting r ≡ false) ⊎ (last_id < r.id))

abbrev is_next : ℕ → Reservation → Bool
is_next last_id r = ltb last_id r.id && is_awaiting r && not false

abbrev hits : List Reservation → ℕ → Bool
hits b i = any (λ q. q.id == i) b

-- A row of the batch, or one behind its end.
abbrev Covered : Reservation → List Reservation → Reservation → Type 0
Covered r b q = (hits (r ∷ b) q.id ≡ true) ⊎ (last_of r b < q.id)

hits-All : (b : List Reservation) → All (λ q. hits b q.id ≡ true) b
hits-All [] = tt
hits-All (r ∷ b) = (
  ground (arith, ==-refl r.id),
  All-map (λ q. hits b q.id ≡ true) (λ q. hits (r ∷ b) q.id ≡ true) (λ q h. ground arith) b
      (hits-All b),
)

hits-last_of : (r : Reservation) (b : List Reservation) → hits (r ∷ b) (last_of r b) ≡ true
hits-last_of r [] = rw (==-refl r.id) refl
hits-last_of r (q ∷ b) = ground (arith, hits-last_of q b)

behind_last_of :
    (r : Reservation) (b rest : List Reservation)
    → IsOrdered by_id (r ∷ (b ++ rest))
    → All (λ q. leb (last_of r b) q.id ≡ true) rest
behind_last_of r [] rest o = o.0
behind_last_of r (q ∷ b) rest o = behind_last_of q b rest o.1

select-All :
    (p : Reservation → Bool) (P : Reservation → Type 0) (rows : List Reservation)
    → All P (select p rows)
    → All (λ q. (p q ≡ false) ⊎ P q) rows
select-All p P [] a = tt
select-All p P (q ∷ rows) a = elim (Bool-cases (p q)) [
  | inl hit ↦ let c = rw hit at a in (inr c.0, select-All p P rows c.1)
  | inr miss ↦ (inl miss, select-All p P rows (rw miss at a))
]

no_rows :
    (last_id : ℕ) (rows : List Reservation)
    → All (λ q. (is_next last_id q ≡ false) ⊎ ⊥) rows
    → IsBehind last_id rows
    → awaiting rows ≡ 0
unfolding awaiting
no_rows last_id [] a h = refl
no_rows last_id (q ∷ rows) a h = ground (arith, no_rows last_id rows a.1 h.1)

fill-IsBehind :
    (x last_id : ℕ) (r : Reservation) (b rows : List Reservation)
    → All (λ q. (is_next last_id q ≡ false) ⊎ Covered r b q) rows
    → IsBehind last_id rows
    → IsBehind (last_of r b) (fill x (r ∷ b) rows)
unfolding fill
fill-IsBehind x last_id r b [] a h = tt
fill-IsBehind x last_id r b (q ∷ rows) a h = elim (Bool-cases (is_target (r ∷ b) q)) [
  | inl hit ↦ rw hit (inl (filled_row-awaiting x q), fill-IsBehind x last_id r b rows a.1 h.1)
  | inr miss ↦ rw miss (ground arith, fill-IsBehind x last_id r b rows a.1 h.1)
]

Covered-later :
    (r : Reservation) (b : List Reservation) (q : Reservation)
    → leb (last_of r b) q.id ≡ true
    → Covered r b q
Covered-later r b q h = elim (Bool-cases (last_of r b == q.id)) [
  | inl same ↦
      inl (subst (λ i. hits (r ∷ b) i ≡ true) (==→eq (last_of r b) q.id same) (hits-last_of r b))
  | inr other ↦ inr (ground arith)
]

-- The rows that a batch is taken from are in it, or come after it.
batch-Covered :
    (size last_id : ℕ) (rows : List Reservation) (r : Reservation) (b : List Reservation)
    → batch (λ i. false) size last_id rows ≡ r ∷ b
    → All (Covered r b) (select (is_next last_id) rows)
unfolding batch
batch-Covered size last_id rows r b h =
    let sorted = order_by by_id (select (is_next last_id) rows) in
    let rest = drop size sorted in
    let whole : (r ∷ b) ++ rest ≡ sorted =
      subst (λ l. l ++ rest ≡ sorted) h (take-drop size sorted) in
    let ordered : IsOrdered by_id ((r ∷ b) ++ rest) =
      subst (IsOrdered by_id) (sym whole)
        (order_by-IsOrdered by_id by_id_total by_id_trans (select (is_next last_id) rows)) in
    let inside =
      All-map (λ q. hits (r ∷ b) q.id ≡ true) (Covered r b) (λ q c. inl c) (r ∷ b)
        (hits-All (r ∷ b)) in
    let behind =
      All-map (λ q. leb (last_of r b) q.id ≡ true) (Covered r b) (Covered-later r b) rest
        (behind_last_of r b rest ordered) in
    order_by-All by_id (Covered r b) (select (is_next last_id) rows)
      (subst (All (Covered r b)) whole (All-append (Covered r b) (r ∷ b) rest inside behind))

empty_batch :
    (size last_id : ℕ) (rows : List Reservation)
    → batch (λ i. false) (suc size) last_id rows ≡ []
    → All (λ q. ⊥) (select (is_next last_id) rows)
unfolding batch
empty_batch size last_id rows h =
    order_by-All by_id (λ q. ⊥) (select (is_next last_id) rows) (none_there _ h)
  where
    none_there : (rs : List Reservation) → take (suc size) rs ≡ [] → All (λ (q : Reservation). ⊥) rs
    none_there [] e = tt
    none_there (q ∷ rs) e = cc

-- A pass that starts before every row that awaits its names, and meets no locked row, leaves none.
pub run_pass-unlocked :
    (fuel : ℕ) (xid : ℕ → ℕ) (size n last_id done : ℕ) (rows : List Reservation) {total : ℕ}
    {after : List Reservation}
    → IsBehind last_id rows
    → run_pass fuel (λ m i. false) xid (suc size) n last_id done rows ≡ some (total, after)
    → awaiting after ≡ 0
unfolding run_pass
run_pass-unlocked zero xid size n last_id done rows behind h = cc
run_pass-unlocked (suc fuel) xid size n last_id done rows {total} {after} behind h =
    elim (List-cases (batch (λ i. false) (suc size) last_id rows)) [
      | inl empty ↦
          let none_left =
            no_rows last_id rows
              (select-All (is_next last_id) (λ q. ⊥) rows (empty_batch size last_id rows empty))
              behind in
          let e : some (done, rows) ≡ some (total, after) = rw (empty, run_pass) at h in
          ground (arith, none_left, e)
      | inr (r, b, more) ↦
          run_pass-unlocked fuel xid size (suc n) (last_of r b) _ (fill (xid n) (r ∷ b) rows)
            (fill-IsBehind (xid n) last_id r b rows
              (select-All (is_next last_id) (Covered r b) rows
                (batch-Covered (suc size) last_id rows r b more))
              behind)
            (rw (more, run_pass) at h)
    ]
