-- ===== src/Names/Split.antt =====
-- `split_guest_name` and the name that `_fields` builds from its two parts.
use restaurant_reservation_s.Prelude.{
  ℕ, zero, suc, ◌≤◌, ◌≡◌, ◌≢◌, refl, ap, false, List, [], ◌∷◌, ◌++◌, some, ◌==◌, All, arith, length,
  take, text_eq, Bool-cases, ==→eq, if◌then◌else◌, inl, inr,
}
use restaurant_reservation_s.Names.{
  Text, space, is_space, flush, push, chunks, words, join, partition, split_guest_name, present,
  rebuilt_name,
}

abbrev pub HasNoSpace : Text → Type 0
HasNoSpace = All (λ c. is_space c ≡ false)

-- A word is not empty and holds no white space.
abbrev pub IsWord : Text → Type 0
IsWord w = (w ≢ []) × HasNoSpace w

flush-IsWord : (w : Text) (ws : List Text) → HasNoSpace w → All IsWord ws → All IsWord (flush w ws)
unfolding flush
flush-IsWord [] ws h a = a
flush-IsWord (c ∷ w) ws h a = ((λ e. cc, h), a)

chunks-IsWord : (s : Text) → HasNoSpace (chunks s).0 × All IsWord (chunks s).1
unfolding chunks push
chunks-IsWord [] = (tt, tt)
chunks-IsWord (c ∷ s) = elim (Bool-cases (is_space c)) [
  | inl white ↦
      rw white (tt, flush-IsWord (chunks s).0 (chunks s).1 (chunks-IsWord s).0 (chunks-IsWord s).1)
  | inr other ↦ rw other ((other, (chunks-IsWord s).0), (chunks-IsWord s).1)
]

pub words-IsWord : (s : Text) → All IsWord (words s)
unfolding words
words-IsWord s = flush-IsWord _ _ (chunks-IsWord s).0 (chunks-IsWord s).1

no_space-ne : (c : ℕ) → is_space c ≡ false → (c == space) ≡ false
unfolding is_space
no_space-ne c h = elim (Bool-cases (c == space)) [
  | inl e ↦ let k : is_space space ≡ false = rw (==→eq c space e) at h in cc k
  | inr ne ↦ ne
]

partition-word : (w rest : Text) → HasNoSpace w → partition (w ++ space ∷ rest) ≡ (w, rest)
unfolding partition
partition-word [] rest h = refl
partition-word (c ∷ w) rest h = ground (arith, no_space-ne c h.0, partition-word w rest h.1)

partition_alone : (w : Text) → HasNoSpace w → partition w ≡ (w, [])
unfolding partition
partition_alone [] h = refl
partition_alone (c ∷ w) h = ground (arith, no_space-ne c h.0, partition_alone w h.1)

partition-join :
    (w : Text) (ws : List Text) → HasNoSpace w → partition (join (w ∷ ws)) ≡ (w, join ws)
unfolding join
partition-join w [] h = partition_alone w h
partition-join w (v ∷ ws) h = partition-word w (join (v ∷ ws)) h

text_eq-nil : (s : Text) → s ≢ [] → text_eq s [] ≡ false
text_eq-nil [] h = absurd (h refl)
text_eq-nil (c ∷ s) h = refl

pub join-ne-nil : (w : Text) (ws : List Text) → w ≢ [] → join (w ∷ ws) ≢ []
unfolding join
join-ne-nil [] ws h = absurd (h refl)
join-ne-nil (c ∷ w) [] h = λ e. cc
join-ne-nil (c ∷ w) (v ∷ ws) h = λ e. cc

-- The first name is the first word and the last name is the rest, both cut at 60 characters; a text
-- of white space alone gives two empty names.
pub split_guest_name-words :
    (full : Text)
    → split_guest_name full ≡ elim (words full) as (λ _. Text × Text) [
      | [] ↦ ([], [])
      | w ∷ ws ↦ (take 60 w, take 60 (join ws))
    ]
unfolding split_guest_name
split_guest_name-words full = go (words full) (words-IsWord full)
  where
    go :
        (ws : List Text)
        → All IsWord ws
        → (if text_eq (join ws) []
            then ([], [])
            else (let (first, last) = partition (join ws) in (take 60 first, take 60 last)))
          ≡ elim ws as (λ _. Text × Text) [
            | [] ↦ ([], [])
            | w ∷ ws ↦ (take 60 w, take 60 (join ws))
          ]
    go [] h = unfold join in refl
    go (w ∷ ws) h =
        rw (text_eq-nil (join (w ∷ ws)) (join-ne-nil w ws h.0.0), partition-join w ws h.0.1) refl

pub take-all {ℓ} : {A : Type ℓ} (n : ℕ) (xs : List A) → length xs ≤ n → take n xs ≡ xs
take-all zero [] h = refl
take-all zero (x ∷ xs) h = absurd (omega arith)
take-all (suc n) [] h = refl
take-all (suc n) (x ∷ xs) h = ap (◌∷◌ x) (take-all n xs (omega arith))

-- Neither name is longer than its column.
abbrev pub NameFits : List Text → Type 0
NameFits [] = Unit
NameFits (w ∷ ws) = (length w ≤ 60) × (length (join ws) ≤ 60)

present-some : (s : Text) → s ≢ [] → present (some s) ≡ s ∷ []
unfolding present
present-some [] h = absurd (h refl)
present-some (c ∷ s) h = refl

rebuilt-words :
    (w : Text) (ws : List Text)
    → IsWord w
    → All IsWord ws
    → rebuilt_name (some w) (some (join ws)) ≡ join (w ∷ ws)
unfolding rebuilt_name
rebuilt-words w [] h a = rw (present-some w h.0) (unfold join present in refl)
rebuilt-words w (v ∷ ws) h a =
    rw (present-some w h.0, present-some (join (v ∷ ws)) (join-ne-nil v ws a.0.0))
      (unfold join in refl)

-- When the first word and the rest of a guest name have at most 60 characters each, the name that is
-- built from its two parts is the guest name with its white space normalised.
pub rebuilt_name-split :
    (full : Text)
    → NameFits (words full)
    → rebuilt_name (some (split_guest_name full).0) (some (split_guest_name full).1)
      ≡ join (words full)
rebuilt_name-split full fits =
    rw (split_guest_name-words full) (go (words full) (words-IsWord full) fits)
  where
    go :
        (ws : List Text)
        → All IsWord ws
        → NameFits ws
        → let parts : Text × Text = elim ws as (λ _. Text × Text) [
          | [] ↦ ([], [])
          | w ∷ ws ↦ (take 60 w, take 60 (join ws))
        ] in
          rebuilt_name (some parts.0) (some parts.1) ≡ join ws
    go [] a f = unfold rebuilt_name present join in refl
    go (w ∷ ws) a f = rw (take-all 60 w f.0, take-all 60 (join ws) f.1) (rebuilt-words w ws a.0 a.1)
