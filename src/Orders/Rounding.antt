-- ===== src/Orders/Rounding.antt =====
-- `quantize` against the number that it rounds.
use restaurant_reservation_s.Prelude.{
  ℕ, zero, suc, false, ◌⊎◌, ◌+◌, ◌-◌, ◌*◌, ◌/◌, ◌%◌, ◌^◌, ◌≤◌, ◌<◌, ◌≡◌, arith, ltb, leb,
  Bool-cases, inl, inr,
}
use native.Mathlib.Nat.{div-add-mod', mod-lt, pow-zero, pow-suc}
use restaurant_reservation_s.Orders.Money.{Decimal, round_half_even, quantize}

tie :
    (q r d n : ℕ)
    → q * d + r ≡ n
    → 2 * r ≡ d
    → (2 * ((q + q % 2) * d) ≤ 2 * n + d) × (2 * n ≤ 2 * ((q + q % 2) * d) + d)
tie q r d n parts half = elim (even_or_odd q) [
  | inl even ↦ rw even (omega arith)
  | inr odd ↦ rw odd (omega arith)
]
  where
    even_or_odd : (k : ℕ) → (k % 2 ≡ 0) ⊎ (k % 2 ≡ 1)
    even_or_odd k = omega arith

-- The rounded quotient is at most half a unit away.
pub round_half_even-near :
    (n d : ℕ)
    → 0 < d
    → (2 * (round_half_even n d * d) ≤ 2 * n + d) × (2 * n ≤ 2 * (round_half_even n d * d) + d)
unfolding round_half_even
round_half_even-near n d h =
    let parts : n / d * d + n % d ≡ n = div-add-mod' n d in
    let small : n % d < d = mod-lt n h in
    elim (Bool-cases (ltb (2 * (n % d)) d)) [
      | inl down ↦ rw down (let below : 2 * (n % d) < d = ground arith in omega arith)
      | inr other ↦ rw other (elim (Bool-cases (ltb d (2 * (n % d)))) [
        | inl up ↦ rw up (let above : d < 2 * (n % d) = ground arith in omega arith)
        | inr half ↦ rw half (tie (n / d) (n % d) d n parts (ground arith))
      ])
    ]

pow-pos : (k : ℕ) → 0 < 10 ^ k
pow-pos zero = rw pow-zero (omega arith)
pow-pos (suc k) = rw pow-suc (omega (arith, pow-pos k))

scaled :
    (q c d : ℕ)
    → (2 * (q * d) ≤ 2 * c + d) × (2 * c ≤ 2 * (q * d) + d)
    → (2 * (q * (d * 10 * 10)) ≤ 2 * (c * 100) + d * 10 * 10)
      × (2 * (c * 100) ≤ 2 * (q * (d * 10 * 10)) + d * 10 * 10)
scaled q c d h = omega arith

-- The hundredths of a price are at most half a hundredth away from it.
pub quantize-near :
    (c p : ℕ)
    → let x : Decimal = record { coefficient = c; places = p } in
      (2 * (quantize x * 10 ^ p) ≤ 2 * (c * 100) + 10 ^ p)
      × (2 * (c * 100) ≤ 2 * (quantize x * 10 ^ p) + 10 ^ p)
unfolding quantize
quantize-near c zero = omega arith
quantize-near c (suc zero) = omega arith
quantize-near c (suc (suc zero)) = omega arith
quantize-near c (suc (suc (suc k))) =
    let test : leb (suc (suc (suc k))) 2 ≡ false = ground arith in
    let shift : suc (suc (suc k)) - 2 ≡ suc k = omega arith in
    rw (test, shift, pow-suc 10 (suc (suc k)), pow-suc 10 (suc k))
      (scaled (round_half_even c (10 ^ suc k)) c (10 ^ suc k)
        (round_half_even-near c (10 ^ suc k) (pow-pos (suc k))))
