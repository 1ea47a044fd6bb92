-- ===== src/Paging/Cover.antt =====
-- The pages of a list endpoint give every row once.
use restaurant_reservation_s.Prelude.{
  ℕ, zero, suc, ◌+◌, ◌-◌, ◌*◌, ◌%◌, ◌≤◌, ◌<◌, ◌≡◌, refl, ap, ◌∙◌, Bool, List, [], ◌∷◌, ◌++◌, take,
  drop, length, length-take-le, arith,
}
use mathlib.Core.List.{Perm}
use mathlib.Core.List.Perm
use native.Mathlib.Nat.{div-add-mod', mod-lt}
use restaurant_reservation_s.Paging.{insert_sorted, order_by, ceil_div, page_of, paged}

-- The pages 1 to n, one after the other.
abbrev pub first_pages {ℓ} : {A : Type ℓ} → ℕ → ℕ → List A → List A
first_pages zero limit rows = []
first_pages (suc n) limit rows = first_pages n limit rows ++ (paged (suc n) limit rows).items

ceil_div-bounds :
    (total limit : ℕ)
    → 0 < limit
    → (total ≤ ceil_div total limit * limit) × (ceil_div total limit * limit < total + limit)
unfolding ceil_div
ceil_div-bounds total limit h =
    let parts = div-add-mod' (total + (limit - 1)) limit in
    let small : (total + (limit - 1)) % limit < limit = mod-lt (total + (limit - 1)) h in
    omega arith

module _ {ℓ} {A : Type ℓ} where
  take-add : (m n : ℕ) (xs : List A) → take (m + n) xs ≡ take m xs ++ take n (drop m xs)
  take-add zero n xs = let e : 0 + n ≡ n = omega arith in rw e
  take-add (suc m) zero [] = let e : suc m + 0 ≡ suc m = omega arith in rw e
  take-add (suc m) (suc n) [] = let e : suc m + suc n ≡ suc (m + suc n) = omega arith in rw e
  take-add (suc m) n (x ∷ xs) =
      let e : suc m + n ≡ suc (m + n) = omega arith in rw e (ap (◌∷◌ x) (take-add m n xs))

  take-all : (n : ℕ) (xs : List A) → length xs ≤ n → take n xs ≡ xs
  take-all zero [] h = refl
  take-all zero (x ∷ xs) h = absurd (omega arith)
  take-all (suc n) [] h = refl
  take-all (suc n) (x ∷ xs) h = ap (◌∷◌ x) (take-all n xs (omega arith))

  first_pages-take :
      (n limit : ℕ) (rows : List A) → first_pages n limit rows ≡ take (n * limit) rows
  unfolding paged page_of
  first_pages-take zero limit rows = let e : 0 * limit ≡ 0 = omega arith in rw e
  first_pages-take (suc n) limit rows =
      let e : suc n * limit ≡ n * limit + limit = omega arith in
      let f : suc n - 1 ≡ n = omega arith in
      rw (e, take-add (n * limit) limit rows, page_of, f, first_pages-take n limit rows)

  -- With a limit above 0: reading the pages from 1 to `pages` gives each row once, in order; no page has more than `limit`
  -- rows, and `pages` is the least number that holds them all.
  pub paged-cover :
      (p limit : ℕ) (rows : List A)
      → 0 < limit
      → let total = length rows in
        (first_pages (paged p limit rows).pages limit rows ≡ rows)
        × (length (paged p limit rows).items ≤ limit)
        × ((paged p limit rows).pages * limit < total + limit)
  unfolding paged
  paged-cover p limit rows h =
      let bounds = ceil_div-bounds (length rows) limit h in
      (
        first_pages-take (ceil_div (length rows) limit) limit rows
            ∙ take-all (ceil_div (length rows) limit * limit) rows bounds.0,
        length-take-le limit (drop ((p - 1) * limit) rows),
        bounds.1,
      )

-- ORDER BY keeps every row.
module _ {ℓ} {A : Type ℓ} (before : A → A → Bool) where
  insert_sorted-perm : (x : A) (xs : List A) → Perm (insert_sorted before x xs) (x ∷ xs)
  unfolding insert_sorted
  insert_sorted-perm x [] = Perm.refl (x ∷ [])
  insert_sorted-perm x (y ∷ ys) =
      let kept = Perm.refl (x ∷ y ∷ ys) in
      let moved = Perm.trans (Perm.cons y (insert_sorted-perm x ys)) (Perm.swap x y ys) in
      ground (arith, kept, moved)

  pub order_by-perm : (xs : List A) → Perm (order_by before xs) xs
  unfolding order_by
  order_by-perm [] = Perm.nil
  order_by-perm (x ∷ xs) =
      Perm.trans (insert_sorted-perm x (order_by before xs)) (Perm.cons x (order_by-perm xs))
