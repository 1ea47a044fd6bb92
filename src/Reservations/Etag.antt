-- ===== src/Reservations/Etag.antt =====
-- The version as an ETag and the check of If-Match (app/services/reservations.py, etag and
-- check_if_match).
use restaurant_reservation_s.Prelude.{
  ℕ, zero, suc, ◌+◌, ◌/◌, ◌%◌, Bool, ◌&&◌, ◌||◌, List, [], ◌∷◌, ◌++◌, Option, none, some, ◌==◌, any,
  text_eq, if◌then◌else◌,
}
use restaurant_reservation_s.Http.{
  Outcome, ok, raised, http_exception, send_if_match, reservation_changed,
}
use restaurant_reservation_s.Names.{Text, is_space}
use restaurant_reservation_s.Models.Reservation.{Reservation}

abbrev pub quote : ℕ
quote = b'"'

abbrev pub comma : ℕ
comma = b','

-- Decimal digits, the last one first; `fuel` above the number is enough.
unfoldable pub digits : ℕ → ℕ → Text
digits zero n = []
digits (suc fuel) n =
    let rest = digits fuel (n / 10) in
    if n / 10 == 0 then (b'0' + n) ∷ [] else (b'0' + n % 10) ∷ rest

unfoldable pub rev_onto : Text → Text → Text
rev_onto [] acc = acc
rev_onto (c ∷ s) acc = rev_onto s (c ∷ acc)

-- `str(version)`
unfoldable pub decimal : ℕ → Text
unfolding digits rev_onto
decimal n = rev_onto (digits (suc n) n) []

-- f'"{r.version}"'
unfoldable pub etag : Reservation → Text
etag r = quote ∷ (decimal r.version ++ quote ∷ [])

-- Cuts a text at each place that `sep` tells: the first piece, and the pieces after it.
unfoldable pub pieces : (ℕ → Bool) → Text → Text × List Text
pieces sep [] = ([], [])
pieces sep (c ∷ s) = let (p, ps) = pieces sep s in if sep c then ([], p ∷ ps) else (c ∷ p, ps)

-- `s.split(",")`
unfoldable pub split_commas : Text → List Text
unfolding pieces
split_commas s = let (p, ps) = pieces (λ c. c == comma) s in p ∷ ps

-- `s.strip(chars)`, with `p` the characters to strip: at the front, and at the end.
unfoldable pub strip_front : (ℕ → Bool) → Text → Text
strip_front p [] = []
strip_front p (c ∷ s) = if p c then strip_front p s else c ∷ s

unfoldable pub cons_stripped : (ℕ → Bool) → ℕ → Text → Text
cons_stripped p c [] = if p c then [] else c ∷ []
cons_stripped p c (d ∷ s) = c ∷ d ∷ s

unfoldable pub strip_back : (ℕ → Bool) → Text → Text
unfolding cons_stripped
strip_back p [] = []
strip_back p (c ∷ s) = cons_stripped p c (strip_back p s)

unfoldable pub strip : (ℕ → Bool) → Text → Text
strip p s = strip_back p (strip_front p s)

-- `t.removeprefix("W/")`
unfoldable pub remove_weak : Text → Text
remove_weak [] = []
remove_weak (c ∷ []) = c ∷ []
remove_weak (c ∷ d ∷ s) = if c == b'W' && d == b'/' then s else c ∷ d ∷ s

-- `t.strip().removeprefix("W/").strip('"')`
unfoldable pub tag : Text → Text
tag t = strip (λ c. c == quote) (remove_weak (strip is_space t))

-- `"*" in seen or str(r.version) in seen`
unfoldable pub seen : ℕ → List Text → Bool
seen v ts = any (λ t. text_eq (tag t) (b'*' ∷ []) || text_eq (tag t) (decimal v)) ts

unfoldable pub check_if_match : Reservation → Option Text → Bool → Outcome (Unit {0})
unfolding seen split_commas
check_if_match r none required =
    if required then raised (http_exception 428 send_if_match) else ok tt
check_if_match r (some if_match) required =
    if seen r.version (split_commas if_match)
    then ok tt
    else raised (http_exception 412 reservation_changed)
