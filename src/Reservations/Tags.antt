-- ===== src/Reservations/Tags.antt =====
-- An ETag that a client sends back in If-Match (app/services/reservations.py, etag and
-- check_if_match).
use restaurant_reservation_s.Prelude.{
  text_eq_refl, text_eq→eq, ℕ, zero, suc, ◌+◌, ◌-◌, ◌*◌, ◌/◌, ◌≤◌, ◌<◌, ◌≡◌, ◌≢◌, refl, ap, Bool,
  true, false, ◌||◌, [], ◌∷◌, ◌++◌, some, ◌==◌, text_eq, if◌then◌else◌, All, All-map, arith,
  ==-refl, ==→eq, Bool-cases, inl, inr,
}
use restaurant_reservation_s.Http.{ok, raised, http_exception, reservation_changed}
use restaurant_reservation_s.Names.{Text, is_space}
use restaurant_reservation_s.Models.Reservation.{Reservation}
use restaurant_reservation_s.Paging.Ordered.{All-append}
use restaurant_reservation_s.Reservations.Etag.{
  quote, comma, digits, rev_onto, decimal, etag, pieces, split_commas, strip_front, cons_stripped,
  strip_back, strip, remove_weak, tag, seen, check_if_match,
}

abbrev IsDigit : ℕ → Type 0
IsDigit c = (b'0' ≤ c) × (c ≤ b'9')

digits-IsDigit : (fuel n : ℕ) → All IsDigit (digits fuel n)
unfolding digits
digits-IsDigit zero n = tt
digits-IsDigit (suc fuel) n = ground (arith, digits-IsDigit fuel (n / 10))

-- The number that digits spell, the last one first.
abbrev value : Text → ℕ
value [] = 0
value (c ∷ s) = (c - b'0') + 10 * value s

value-digits : (fuel n : ℕ) → n < fuel → value (digits fuel n) ≡ n
unfolding digits
value-digits zero n h = absurd (omega arith)
value-digits (suc fuel) n h = elim (Bool-cases (n / 10 == 0)) [
  | inl last ↦ rw last (ground arith)
  | inr more ↦ rw more (ground (arith, value-digits fuel (n / 10) (ground arith)))
]

digits-ne-nil : (n : ℕ) → digits (suc n) n ≢ []
unfolding digits
digits-ne-nil n = ground arith

rev_onto-All : (P : ℕ → Type 0) (s acc : Text) → All P s → All P acc → All P (rev_onto s acc)
unfolding rev_onto
rev_onto-All P [] acc h k = k
rev_onto-All P (c ∷ s) acc h k = rev_onto-All P s (c ∷ acc) h.1 (h.0, k)

rev_onto-rev_onto : (s acc : Text) → rev_onto (rev_onto s acc) [] ≡ rev_onto acc s
unfolding rev_onto
rev_onto-rev_onto [] acc = refl
rev_onto-rev_onto (c ∷ s) acc = rev_onto-rev_onto s (c ∷ acc)

rev_onto-inj : (s t : Text) → rev_onto s [] ≡ rev_onto t [] → s ≡ t
rev_onto-inj s t h =
    let e : rev_onto (rev_onto s []) [] ≡ rev_onto (rev_onto t []) [] = ap (λ x. rev_onto x []) h in
    unfold rev_onto in rw (rev_onto-rev_onto s [], rev_onto-rev_onto t []) at e

decimal-inj : (m n : ℕ) → decimal m ≡ decimal n → m ≡ n
unfolding decimal
decimal-inj m n h =
    let e = rev_onto-inj (digits (suc m) m) (digits (suc n) n) h in
    cc (ap value e, value-digits (suc m) m (omega arith), value-digits (suc n) n (omega arith))

decimal-IsDigit : (n : ℕ) → All IsDigit (decimal n)
unfolding decimal
decimal-IsDigit n = rev_onto-All IsDigit (digits (suc n) n) [] (digits-IsDigit (suc n) n) tt

decimal-ne-nil : (n : ℕ) → decimal n ≢ []
unfolding decimal
decimal-ne-nil n e = digits-ne-nil n (rev_onto-inj (digits (suc n) n) [] (unfold rev_onto in e))

text_eq-decimal : (m n : ℕ) → text_eq (decimal m) (decimal n) ≡ (n == m)
text_eq-decimal m n = elim (Bool-cases (n == m)) [
  | inl same ↦ rw (==→eq n m same, ==-refl m) (text_eq_refl (decimal m))
  | inr other ↦ elim (Bool-cases (text_eq (decimal m) (decimal n))) [
    | inl eq ↦
        absurd (cc (decimal-inj m n (text_eq→eq (decimal m) (decimal n) eq), ==-refl m, other))
    | inr ne ↦ rw (ne, other)
  ]
]

not_star : (s : Text) → All IsDigit s → text_eq s (b'*' ∷ []) ≡ false
not_star [] h = refl
not_star (c ∷ s) h = ground arith

module _ (p : ℕ → Bool) where
  -- No character of the text satisfies the test.
  abbrev Free : Text → Type 0
  Free = All (λ c. p c ≡ false)

  pieces_alone : (s : Text) → Free s → pieces p s ≡ (s, [])
  unfolding pieces
  pieces_alone [] h = refl
  pieces_alone (c ∷ s) h = rw (h.0, pieces_alone s h.1) refl

  strip_back_alone : (s : Text) → Free s → strip_back p s ≡ s
  unfolding strip_back cons_stripped
  strip_back_alone [] h = refl
  strip_back_alone (c ∷ []) h = ground (arith, h.0)
  strip_back_alone (c ∷ d ∷ s) h = rw (strip_back_alone (d ∷ s) h.1) refl

  strip_alone : (s : Text) → Free s → strip p s ≡ s
  unfolding strip strip_front
  strip_alone [] h = strip_back_alone [] h
  strip_alone (c ∷ s) h = rw h.0 (strip_back_alone (c ∷ s) h)

  strip_back_last : (c : ℕ) (s : Text) → p c ≡ true → Free s → strip_back p (s ++ c ∷ []) ≡ s
  unfolding strip_back cons_stripped
  strip_back_last c [] h f = rw h refl
  strip_back_last c (d ∷ []) h f = ground (arith, f.0)
  strip_back_last c (d ∷ x ∷ s) h f = rw (strip_back_last c (x ∷ s) h f.1) refl

  strip_around : (c : ℕ) (s : Text) → p c ≡ true → Free s → s ≢ [] → strip p (c ∷ (s ++ c ∷ [])) ≡ s
  unfolding strip strip_front
  strip_around c [] h f ne = absurd (ne refl)
  strip_around c (d ∷ s) h f ne = rw (h, f.0) (strip_back_last c (d ∷ s) h f)

digit_no_space : (c : ℕ) → IsDigit c → is_space c ≡ false
unfolding is_space
digit_no_space c h = ground arith

split_commas_alone : (s : Text) → Free (λ c. c == comma) s → split_commas s ≡ s ∷ []
unfolding split_commas
split_commas_alone s h = rw (pieces_alone (λ c. c == comma) s h) refl

remove_weak-quote : (s : Text) → remove_weak (quote ∷ s) ≡ quote ∷ s
unfolding remove_weak
remove_weak-quote [] = refl
remove_weak-quote (c ∷ s) = refl

-- Digits in quotes.
abbrev quoted : Text → Text
quoted s = quote ∷ (s ++ quote ∷ [])

quoted-Free :
    (p : ℕ → Bool) (s : Text)
    → p quote ≡ false
    → ((c : ℕ) → IsDigit c → p c ≡ false)
    → All IsDigit s
    → Free p (quoted s)
quoted-Free p s h f d = (
  h,
  All-append (λ c. p c ≡ false) s (quote ∷ []) (All-map IsDigit (λ c. p c ≡ false) f s d) (h, tt),
)

tag-quoted : (s : Text) → All IsDigit s → s ≢ [] → tag (quoted s) ≡ s
unfolding tag
tag-quoted s d ne =
    rw
      (
        strip_alone is_space (quoted s)
            (quoted-Free is_space s (unfold is_space in refl) digit_no_space d),
        remove_weak-quote (s ++ quote ∷ []),
      )
      (strip_around (λ c. c == quote) quote s refl
        (All-map IsDigit (λ c. (c == quote) ≡ false) (λ c h. ground arith) s d) ne)

split_commas-quoted : (s : Text) → All IsDigit s → split_commas (quoted s) ≡ quoted s ∷ []
split_commas-quoted s d =
    split_commas_alone (quoted s) (quoted-Free (λ c. c == comma) s refl (λ c h. ground arith) d)

seen_alone :
    (v : ℕ) (t : Text)
    → seen v (t ∷ []) ≡ (text_eq (tag t) (b'*' ∷ []) || text_eq (tag t) (decimal v))
unfolding seen
seen_alone v t = ground arith

seen-quoted : (v w : ℕ) → seen v (split_commas (quoted (decimal w))) ≡ (v == w)
seen-quoted v w =
    let d = decimal-IsDigit w in
    rw
      (
        split_commas-quoted (decimal w) d,
        seen_alone v (quoted (decimal w)),
        tag-quoted (decimal w) d (decimal-ne-nil w),
        not_star (decimal w) d,
      )
      (text_eq-decimal w v)

check_if_match-seen :
    (r : Reservation) (t : Text) (required : Bool)
    → check_if_match r (some t) required ≡ (
        if seen r.version (split_commas t)
        then ok tt
        else raised (http_exception 412 reservation_changed))
unfolding check_if_match
check_if_match-seen r t required = refl

-- A client that sends back the ETag of a row is let through if the row that is loaded has the same
-- version, and is answered 412 otherwise, whether If-Match is required or not.
pub check_if_match-etag :
    (r q : Reservation) (required : Bool)
    → check_if_match r (some (etag q)) required
      ≡ (if r.version == q.version then ok tt else raised (http_exception 412 reservation_changed))
check_if_match-etag r q required =
    let same : seen r.version (split_commas (etag q)) ≡ (r.version == q.version) =
      unfold etag in seen-quoted r.version q.version in
    rw (check_if_match-seen r (etag q) required, same) refl
