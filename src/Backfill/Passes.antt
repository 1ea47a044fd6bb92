-- ===== src/Backfill/Passes.antt =====
-- A pass of the backfill ends, counts what it fills, and touches nothing else.
use restaurant_reservation_s.Prelude.{
  All-take, leb, ℕ, zero, suc, ◌+◌, ◌≤◌, ◌<◌, ◌≡◌, refl, Bool, true, false, not, ◌&&◌, List, [],
  ◌∷◌, some, ◌==◌, ltb, select, count_where, All, arith, Bool-cases, List-cases, inl, inr, ==-refl,
}
use restaurant_reservation_s.Models.Reservation.{Reservation}
use restaurant_reservation_s.Paging.Ordered.{All-order_by}
use restaurant_reservation_s.Backfill.{
  is_awaiting, awaiting, filled_row, batch, is_target, fill, last_of, run_pass,
}

-- What a pass may do to a row: leave it, or fill the two names of a row that awaited them, from its
-- guest_name. The id, the guest_name and all else but the version stay.
pub data Filled (r : Reservation) : Reservation → Type 0 where
  same : Filled r r
  filled : (x : ℕ) → is_awaiting r ≡ true → Filled r (filled_row x r)

abbrev pub AllFilled : List Reservation → List Reservation → Type 0
AllFilled [] [] = Unit
AllFilled (r ∷ rs) (q ∷ qs) = Filled r q × AllFilled rs qs
AllFilled _ _ = ⊥

pub AllFilled-refl : (rs : List Reservation) → AllFilled rs rs
AllFilled-refl [] = tt
AllFilled-refl (r ∷ rs) = (same, AllFilled-refl rs)

pub filled_row-awaiting : (x : ℕ) (r : Reservation) → is_awaiting (filled_row x r) ≡ false
unfolding filled_row
filled_row-awaiting x r = refl

Filled-trans : (r q t : Reservation) → Filled r q → Filled q t → Filled r t
Filled-trans r q t same g = g
Filled-trans r q t (filled x h) same = filled x h
Filled-trans r q t (filled x h) (filled y k) = absurd (no k)
  where
    no : is_awaiting (filled_row x r) ≡ true → ⊥
    no e = cc (filled_row-awaiting x r)

pub AllFilled-trans :
    (rs qs ts : List Reservation) → AllFilled rs qs → AllFilled qs ts → AllFilled rs ts
AllFilled-trans [] [] ts f g = g
AllFilled-trans [] (q ∷ qs) ts f g = elim f [ ]
AllFilled-trans (r ∷ rs) [] ts f g = elim f [ ]
AllFilled-trans (r ∷ rs) (q ∷ qs) [] f g = elim g [ ]
AllFilled-trans (r ∷ rs) (q ∷ qs) (t ∷ ts) f g =
    (Filled-trans r q t f.0 g.0, AllFilled-trans rs qs ts f.1 g.1)

fill-AllFilled : (x : ℕ) (b rows : List Reservation) → AllFilled rows (fill x b rows)
unfolding fill
fill-AllFilled x b [] = tt
fill-AllFilled x b (r ∷ rows) = elim (Bool-cases (is_target b r)) [
  | inl hit ↦ rw hit (filled x (ground arith), fill-AllFilled x b rows)
  | inr miss ↦ rw miss (same, fill-AllFilled x b rows)
]

-- The UPDATE reports as many rows as it takes off those that await.
pub fill-awaiting :
    (x : ℕ) (b rows : List Reservation)
    → count_where (is_target b) rows + awaiting (fill x b rows) ≡ awaiting rows
unfolding fill awaiting
fill-awaiting x b [] = omega arith
fill-awaiting x b (r ∷ rows) = ground (arith, filled_row-awaiting x r, fill-awaiting x b rows)

-- A row of the table with this id still awaits its names.
abbrev Awaits : List Reservation → Reservation → Type 0
Awaits rows q = 0 < count_where (λ r. is_awaiting r && q.id == r.id) rows

Awaits-cons :
    (r : Reservation) (rows : List Reservation) (q : Reservation)
    → Awaits rows q
    → Awaits (r ∷ rows) q
Awaits-cons r rows q h = omega arith

All-Awaits-cons :
    (r : Reservation) (rows qs : List Reservation)
    → All (Awaits rows) qs
    → All (Awaits (r ∷ rows)) qs
All-Awaits-cons r rows [] a = tt
All-Awaits-cons r rows (q ∷ qs) a = (Awaits-cons r rows q a.0, All-Awaits-cons r rows qs a.1)

select-Awaits :
    (last_id : ℕ) (locked : ℕ → Bool) (rows : List Reservation)
    → All (Awaits rows) (select (λ r. ltb last_id r.id && is_awaiting r && not (locked r.id)) rows)
select-Awaits last_id locked [] = tt
select-Awaits last_id locked (r ∷ rows) =
    let rest =
      All-Awaits-cons r rows
        (select (λ q. ltb last_id q.id && is_awaiting q && not (locked q.id)) rows)
        (select-Awaits last_id locked rows) in
    elim (Bool-cases (ltb last_id r.id && is_awaiting r && not (locked r.id))) [
      | inl hit ↦ rw hit (ground (arith, hit, ==-refl r.id), rest)
      | inr miss ↦ rw miss rest
    ]

batch-Awaits :
    (locked : ℕ → Bool) (size last_id : ℕ) (rows : List Reservation)
    → All (Awaits rows) (batch locked size last_id rows)
unfolding batch
batch-Awaits locked size last_id rows =
    All-take (Awaits rows) size _
      (All-order_by (λ r q. leb r.id q.id) (Awaits rows) _ (select-Awaits last_id locked rows))

target_count :
    (q : Reservation) (b rows : List Reservation)
    → count_where (λ r. is_awaiting r && q.id == r.id) rows ≤ count_where (is_target (q ∷ b)) rows
target_count q b [] = omega arith
target_count q b (r ∷ rows) = ground (arith, target_count q b rows)

-- A batch that is not empty takes at least one row off those that await.
fill-shrinks :
    (locked : ℕ → Bool) (size last_id x : ℕ) (rows : List Reservation) (r : Reservation)
    (b : List Reservation)
    → batch locked size last_id rows ≡ r ∷ b
    → awaiting (fill x (r ∷ b) rows) < awaiting rows
fill-shrinks locked size last_id x rows r b h =
    let a : All (Awaits rows) (r ∷ b) = rw h at (batch-Awaits locked size last_id rows) in
    let some_awaits : 0 < count_where (λ q. is_awaiting q && r.id == q.id) rows = a.0 in
    omega (arith, some_awaits, target_count r b rows, fill-awaiting x (r ∷ b) rows)

-- A pass ends, whatever rows are locked meanwhile, within more steps than rows await their names. It
-- changes rows only by filling the two names of such rows from their guest_name, and the number that
-- it returns grows by one for each of them.
pub run_pass-total :
    (fuel : ℕ) (locked : ℕ → ℕ → Bool) (xid : ℕ → ℕ) (size n last_id done : ℕ)
    (rows : List Reservation)
    → awaiting rows < fuel
    → (total : ℕ) × (after : List Reservation) × (run_pass fuel locked xid size n last_id done rows
        ≡ some (total, after))
      × AllFilled rows after
      × (total + awaiting after ≡ done + awaiting rows)
unfolding run_pass
run_pass-total zero locked xid size n last_id done rows h = elim h [ ]
run_pass-total (suc fuel) locked xid size n last_id done rows h =
    elim (List-cases (batch (locked n) size last_id rows)) [
      | inl empty ↦ (done, rows, rw (empty, run_pass) refl, AllFilled-refl rows, refl)
      | inr (r, b, more) ↦
          let next = fill (xid n) (r ∷ b) rows in
          let (total, after, result, changed, count) =
            run_pass-total fuel locked xid size (suc n) (last_of r b)
              (done + count_where (is_target (r ∷ b)) rows) next
              (omega (arith, fill-shrinks (locked n) size last_id (xid n) rows r b more)) in
          (
            total,
            after,
            rw (more, run_pass) result,
            AllFilled-trans rows next after (fill-AllFilled (xid n) (r ∷ b) rows) changed,
            omega (arith, count, fill-awaiting (xid n) (r ∷ b) rows),
          )
    ]
