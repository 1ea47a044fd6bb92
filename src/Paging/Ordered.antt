-- ===== src/Paging/Ordered.antt =====
-- ORDER BY sorts, and LIMIT takes the first rows of the order.
use restaurant_reservation_s.Prelude.{
  ℕ, zero, suc, ◌≡◌, refl, ap, Bool, true, false, List, [], ◌∷◌, ◌++◌, All, take, drop, arith,
  Bool-cases, inl, inr, ◌⊎◌, ◌≤◌, length, length-take-le, sym, subst,
}
use mathlib.Core.List.{Perm}
use restaurant_reservation_s.Paging.{insert_sorted, order_by}
use restaurant_reservation_s.Paging.Cover.{order_by-perm}

pub take-drop {ℓ} : {A : Type ℓ} (n : ℕ) (xs : List A) → take n xs ++ drop n xs ≡ xs
take-drop zero xs = refl
take-drop (suc n) [] = refl
take-drop (suc n) (x ∷ xs) = ap (◌∷◌ x) (take-drop n xs)

pub All-append {ℓ κ} :
    {A : Type ℓ} (P : A → Type κ) (xs ys : List A) → All P xs → All P ys → All P (xs ++ ys)
All-append P [] ys h k = k
All-append P (x ∷ xs) ys h k = (h.0, All-append P xs ys h.1 k)

pub append-All {ℓ κ} :
    {A : Type ℓ} (P : A → Type κ) (xs ys : List A) → All P (xs ++ ys) → All P xs × All P ys
append-All P [] ys h = (tt, h)
append-All P (x ∷ xs) ys h = let (a, b) = append-All P xs ys h.1 in ((h.0, a), b)

drop-take {ℓ} : {A : Type ℓ} (n : ℕ) (xs : List A) → (drop n xs ≡ []) ⊎ (length (take n xs) ≡ n)
drop-take zero xs = inr refl
drop-take (suc n) [] = inl refl
drop-take (suc n) (x ∷ xs) = ground (arith, drop-take n xs)

module _ {ℓ} {A : Type ℓ} (before : A → A → Bool) where
  -- Each row may stand before all that follow.
  abbrev pub IsOrdered : List A → Type 0
  IsOrdered [] = Unit
  IsOrdered (x ∷ xs) = All (λ y. before x y ≡ true) xs × IsOrdered xs

  module _ {κ} (P : A → Type κ) where
    pub All-insert_sorted :
        (x : A) (xs : List A) → P x → All P xs → All P (insert_sorted before x xs)
    unfolding insert_sorted
    All-insert_sorted x [] p a = (p, tt)
    All-insert_sorted x (y ∷ ys) p a = elim (Bool-cases (before x y)) [
      | inl first ↦ rw first (p, a)
      | inr later ↦ rw later (a.0, All-insert_sorted x ys p a.1)
    ]

    insert_sorted-All : (x : A) (xs : List A) → All P (insert_sorted before x xs) → P x × All P xs
    unfolding insert_sorted
    insert_sorted-All x [] a = (a.0, tt)
    insert_sorted-All x (y ∷ ys) a = elim (Bool-cases (before x y)) [
      | inl first ↦ rw first at a
      | inr later ↦
          let b = rw later at a in let (p, c) = insert_sorted-All x ys b.1 in (p, (b.0, c))
    ]

    pub All-order_by : (xs : List A) → All P xs → All P (order_by before xs)
    unfolding order_by
    All-order_by [] a = tt
    All-order_by (x ∷ xs) a = All-insert_sorted x (order_by before xs) a.0 (All-order_by xs a.1)

    pub order_by-All : (xs : List A) → All P (order_by before xs) → All P xs
    unfolding order_by
    order_by-All [] a = tt
    order_by-All (x ∷ xs) a =
        let (p, b) = insert_sorted-All x (order_by before xs) a in (p, order_by-All xs b)

  module _ (total : (x y : A) → before x y ≡ false → before y x ≡ true)
      (trans : (x y z : A) → before x y ≡ true → before y z ≡ true → before x z ≡ true) where
    before-All :
        (x y : A) (ys : List A)
        → before x y ≡ true
        → All (λ z. before y z ≡ true) ys
        → All (λ z. before x z ≡ true) ys
    before-All x y [] h a = tt
    before-All x y (z ∷ ys) h a = (trans x y z h a.0, before-All x y ys h a.1)

    insert_sorted-IsOrdered :
        (x : A) (xs : List A) → IsOrdered xs → IsOrdered (insert_sorted before x xs)
    unfolding insert_sorted
    insert_sorted-IsOrdered x [] o = (tt, tt)
    insert_sorted-IsOrdered x (y ∷ ys) o = elim (Bool-cases (before x y)) [
      | inl first ↦ rw first ((first, before-All x y ys first o.0), o)
      | inr later ↦ rw later (
        All-insert_sorted (λ z. before y z ≡ true) x ys (total x y later) o.0,
        insert_sorted-IsOrdered x ys o.1,
      )
    ]

    pub order_by-IsOrdered : (xs : List A) → IsOrdered (order_by before xs)
    unfolding order_by
    order_by-IsOrdered [] = tt
    order_by-IsOrdered (x ∷ xs) =
        insert_sorted-IsOrdered x (order_by before xs) (order_by-IsOrdered xs)

    -- The rows that LIMIT n leaves of an order are its first, and fewer than n only if they are all.
    pub limited :
        (n : ℕ) (xs : List A)
        → let rows = take n (order_by before xs) in
          (rest : List A) × Perm (rows ++ rest) xs
          × IsOrdered (rows ++ rest)
          × (length rows ≤ n)
          × ((rest ≡ []) ⊎ (length rows ≡ n))
    limited n xs =
        let whole = take-drop n (order_by before xs) in
        (
          drop n (order_by before xs),
          subst (λ l. Perm l xs) (sym whole) (order_by-perm before xs),
          subst IsOrdered (sym whole) (order_by-IsOrdered xs),
          length-take-le n (order_by before xs),
          drop-take n (order_by before xs),
        )
