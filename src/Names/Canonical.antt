-- ===== src/Names/Canonical.antt =====
-- When the two names agree with guest_name (app/migration.py, name_mismatch, against
-- split_guest_name).
use restaurant_reservation_s.Prelude.{
  text_eq_refl, ℕ, ◌≡◌, ◌≢◌, refl, Bool, true, false, List, [], ◌∷◌, ◌++◌, some, ◌==◌, All, arith,
  take,
}
use mathlib.Core.List.{append-nil}
use restaurant_reservation_s.Names.{Text, space, is_space, words, join, split_guest_name}
use restaurant_reservation_s.Names.Split.{
  HasNoSpace, IsWord, NameFits, words-IsWord, split_guest_name-words, take-all, join-ne-nil,
}
use restaurant_reservation_s.Models.Reservation.{Reservation}
use restaurant_reservation_s.Migration.Schema.{
  trim_left, cons_trimmed, trim_right, btrim, not_null, concat_ws, squeeze, name_mismatch,
}

not_space : (c : ℕ) → is_space c ≡ false → (c == space) ≡ false
unfolding is_space
not_space c h = ground arith

trim_left-join : (w : Text) (ws : List Text) → IsWord w → trim_left (join (w ∷ ws)) ≡ join (w ∷ ws)
unfolding trim_left join
trim_left-join [] ws h = absurd (h.0 refl)
trim_left-join (c ∷ w) [] h = rw (not_space c h.1.0) refl
trim_left-join (c ∷ w) (v ∷ ws) h = rw (not_space c h.1.0) refl

trim_right-word : (w : Text) → HasNoSpace w → trim_right w ≡ w
unfolding trim_right cons_trimmed
trim_right-word [] h = refl
trim_right-word (c ∷ []) h = rw (not_space c h.0) refl
trim_right-word (c ∷ d ∷ w) h = rw (trim_right-word (d ∷ w) h.1) refl

-- What stands before a text that is trimmed already stays.
trim_right-append : (s t : Text) → t ≢ [] → trim_right t ≡ t → trim_right (s ++ t) ≡ s ++ t
unfolding trim_right cons_trimmed
trim_right-append [] t ne h = h
trim_right-append (c ∷ []) [] ne h = absurd (ne refl)
trim_right-append (c ∷ []) (d ∷ t) ne h = rw h refl
trim_right-append (c ∷ e ∷ s) t ne h = rw (trim_right-append (e ∷ s) t ne h) refl

trim_right-join :
    (w : Text) (ws : List Text)
    → IsWord w
    → All IsWord ws
    → trim_right (join (w ∷ ws)) ≡ join (w ∷ ws)
unfolding join
trim_right-join w [] h a = trim_right-word w h.1
trim_right-join w (v ∷ ws) h a =
    let rest = join (v ∷ ws) in
    let kept : trim_right (space ∷ rest) ≡ space ∷ rest =
      trim_right-append (space ∷ []) rest (join-ne-nil v ws a.0.0) (trim_right-join v ws a.0 a.1) in
    trim_right-append w (space ∷ rest) (λ e. cc) kept

trim_right-space : (w : Text) → IsWord w → trim_right (w ++ space ∷ []) ≡ w
unfolding trim_right cons_trimmed
trim_right-space [] h = absurd (h.0 refl)
trim_right-space (c ∷ []) h = rw (not_space c h.1.0) refl
trim_right-space (c ∷ d ∷ w) h = rw (trim_right-space (d ∷ w) ((λ e. cc), h.1.1)) refl

trim_left-space : (w s : Text) → IsWord w → trim_left (w ++ s) ≡ w ++ s
unfolding trim_left
trim_left-space [] s h = absurd (h.0 refl)
trim_left-space (c ∷ w) s h = rw (not_space c h.1.0) refl

btrim-join :
    (w : Text) (ws : List Text) → IsWord w → All IsWord ws → btrim (join (w ∷ ws)) ≡ join (w ∷ ws)
unfolding btrim
btrim-join w ws h a = rw (trim_left-join w ws h) (trim_right-join w ws h a)

-- The two parts, joined by PostgreSQL, are the name.
btrim-concat_ws :
    (w : Text) (ws : List Text)
    → IsWord w
    → All IsWord ws
    → btrim (concat_ws (some w) (some (join ws))) ≡ join (w ∷ ws)
unfolding concat_ws not_null
btrim-concat_ws w [] h a =
    unfold btrim join in rw (trim_left-space w (space ∷ []) h) (trim_right-space w h)
btrim-concat_ws w (v ∷ ws) h a = unfold join in unfold join in btrim-join w (v ∷ ws) h a

module _ (pg_space : ℕ → Bool) (pg_space-space : pg_space space ≡ true)
    (pg_space-is_space : (c : ℕ) → is_space c ≡ false → pg_space c ≡ false) where
  squeeze-append :
      (w s : Text) → HasNoSpace w → squeeze pg_space false (w ++ s) ≡ w ++ squeeze pg_space false s
  unfolding squeeze
  squeeze-append [] s h = refl
  squeeze-append (c ∷ w) s h = rw (pg_space-is_space c h.0, squeeze-append w s h.1) refl

  squeeze-word :
      (run : Bool) (w s : Text)
      → IsWord w
      → squeeze pg_space run (w ++ s) ≡ w ++ squeeze pg_space false s
  unfolding squeeze
  squeeze-word run [] s h = absurd (h.0 refl)
  squeeze-word run (c ∷ w) s h = rw (pg_space-is_space c h.1.0, squeeze-append w s h.1.1) refl

  squeeze-space : (s : Text) → squeeze pg_space false (space ∷ s) ≡ space ∷ squeeze pg_space true s
  unfolding squeeze
  squeeze-space s = rw pg_space-space refl

  squeeze-join :
      (run : Bool) (w : Text) (ws : List Text)
      → IsWord w
      → All IsWord ws
      → squeeze pg_space run (join (w ∷ ws)) ≡ join (w ∷ ws)
  unfolding join
  squeeze-join run w [] h a =
      let e : squeeze pg_space run (w ++ []) ≡ w ++ [] =
        unfold squeeze in squeeze-word run w [] h in
      rw append-nil at e
  squeeze-join run w (v ∷ ws) h a =
      rw
        (
          squeeze-word run w (space ∷ join (v ∷ ws)) h,
          squeeze-space (join (v ∷ ws)),
          squeeze-join true v ws a.0 a.1,
        )
        refl

  agreed :
      (ws : List Text)
      → All IsWord ws
      → NameFits ws
      → let parts : Text × Text = elim ws as (λ _. Text × Text) [
        | [] ↦ ([], [])
        | w ∷ ws ↦ (take 60 w, take 60 (join ws))
      ] in
        btrim (concat_ws (some parts.0) (some parts.1)) ≡ squeeze pg_space false (btrim (join ws))
  agreed [] a f =
      unfold btrim concat_ws not_null join trim_left trim_right cons_trimmed squeeze in refl
  agreed (w ∷ ws) a f =
      rw
        (
          take-all 60 w f.0,
          take-all 60 (join ws) f.1,
          btrim-concat_ws w ws a.0 a.1,
          btrim-join w ws a.0 a.1,
          squeeze-join false w ws a.0 a.1,
        )
        refl

  -- A guest name that has no other white space than single spaces between its words, with a first
  -- word and a rest of at most 60 characters, agrees with the two names that it is split into, where
  -- `\s` of PostgreSQL matches the space and nothing that Python does not take for white space.
  pub name_mismatch-split :
      (r : Reservation) (full : Text)
      → r.guest_name ≡ some full
      → r.first_name ≡ some (split_guest_name full).0
      → r.last_name ≡ some (split_guest_name full).1
      → full ≡ join (words full)
      → NameFits (words full)
      → name_mismatch pg_space r ≡ false
  unfolding name_mismatch
  name_mismatch-split r full g f l clean fits =
      let parts = rw (← clean) at (agreed (words full) (words-IsWord full) fits) in
      let same : btrim (concat_ws (some (split_guest_name full).0) (some (split_guest_name full).1))
          ≡ squeeze pg_space false (btrim full) =
        rw (split_guest_name-words full) parts in
      rw (g, f, l, same, text_eq_refl (squeeze pg_space false (btrim full))) refl
