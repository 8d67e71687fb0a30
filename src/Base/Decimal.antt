-- ===== src/Base/Decimal.antt =====
-- Numbers in decimal, as fmt prints them with %d.
use lanclip.Base.{ℕ, zero, suc, ◌+◌, ◌/◌, ◌%◌, true, false, [], ◌∷◌, ◌++◌, Text, ltb}

-- The fuel bounds the number of digits; a number has fewer digits than its successor counts.
unfoldable pub digits : ℕ → ℕ → Text
digits zero n = []
digits (suc fuel) n = elim (ltb n 10) [
  | true ↦ (b'0' + n) ∷ []
  | false ↦ digits fuel (n / 10) ++ ((b'0' + n % 10) ∷ [])
]

unfoldable pub decimal : ℕ → Text
unfolding digits
decimal n = digits (suc n) n
