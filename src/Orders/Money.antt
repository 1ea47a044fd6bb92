-- ===== src/Orders/Money.antt =====
-- Decimal(str(price)).quantize(Decimal("0.01")) of app/services/orders.py. The float that MongoDB
-- stores is given by the decimal number that its `str` prints, a coefficient and a number of digits
-- after the point; prices are not negative (ProductCreate).
use restaurant_reservation_s.Prelude.{ℕ, ◌+◌, ◌-◌, ◌*◌, ◌/◌, ◌%◌, ◌^◌, ltb, leb, if◌then◌else◌}

pub record Decimal : Type 0 where
  pub coefficient : ℕ
  pub places : ℕ

-- A quotient rounded to the nearest number, and to the even one half way between two (ROUND_HALF_EVEN,
-- the default context).
unfoldable pub round_half_even : ℕ → ℕ → ℕ
round_half_even n d =
    if ltb (2 * (n % d)) d
    then n / d
    else if ltb d (2 * (n % d))
    then n / d + 1
    else n / d + n / d % 2

-- The number of hundredths.
unfoldable pub quantize : Decimal → ℕ
unfolding round_half_even
quantize x =
    if leb x.places 2
    then x.coefficient * 10 ^ (2 - x.places)
    else round_half_even x.coefficient (10 ^ (x.places - 2))
