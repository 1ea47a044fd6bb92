-- ===== src/LoadTest/Noted.antt =====
-- What a customer of the load test keeps of his bookings (loadtest/locustfile.py, self.bookings), read
-- as a map.
use restaurant_reservation_s.Prelude.{
  ℕ, suc, ◌≡◌, ◌≢◌, refl, ap, List, [], ◌∷◌, ◌++◌, Option, none, some, ◌==◌, arith, if◌then◌else◌,
  ==-refl, length,
}
use restaurant_reservation_s.LoadTest.{remember, pop_last}

-- self.bookings[i]
abbrev pub version_of : ℕ → List (ℕ × ℕ) → Option ℕ
version_of i [] = none
version_of i ((j, v) ∷ bs) = if j == i then some v else version_of i bs

-- After it the version of i is v, and those of the other ids are as they were.
abbrev pub IsNoted : ℕ → ℕ → List (ℕ × ℕ) → List (ℕ × ℕ) → Type 0
IsNoted i v bs cs =
    (version_of i cs ≡ some v) × ((j : ℕ) → j ≢ i → version_of j cs ≡ version_of j bs)

version_of-remember :
    (i v j : ℕ) (bs : List (ℕ × ℕ))
    → version_of j (remember i v bs) ≡ (if i == j then some v else version_of j bs)
unfolding remember
version_of-remember i v j [] = refl
version_of-remember i v j ((k, w) ∷ bs) = ground (arith, version_of-remember i v j bs)

pub remember-IsNoted : (i v : ℕ) (bs : List (ℕ × ℕ)) → IsNoted i v bs (remember i v bs)
remember-IsNoted i v bs = (
  ground (arith, version_of-remember i v i bs, ==-refl i),
  (λ j other. ground (arith, version_of-remember i v j bs, other)),
)

pub pop_last-++ :
    (b : ℕ × ℕ) (bs : List (ℕ × ℕ)) (last : ℕ × ℕ) → pop_last b (bs ++ last ∷ []) ≡ (b ∷ bs, last)
unfolding pop_last
pop_last-++ b [] last = refl
pop_last-++ b (d ∷ bs) last = rw (pop_last-++ d bs last) refl

pub length-snoc : (b : ℕ × ℕ) (bs : List (ℕ × ℕ)) → length (bs ++ b ∷ []) ≡ suc (length bs)
length-snoc b [] = refl
length-snoc b (d ∷ bs) = ap suc (length-snoc b bs)
