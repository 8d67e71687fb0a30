-- ===== src/Base/Int64.antt =====
-- Go's int64 as a bit pattern, a number below 2 ^ 64.
use lanclip.Base.{ℕ, ◌+◌, ◌-◌, ◌/◌, ◌%◌, ◌^◌, Bool, ltb, if◌then◌else◌}

abbrev pub modulus : ℕ
modulus = 2 ^ 64

abbrev pub half : ℕ
half = 2 ^ 63

-- `a < b` of signed numbers
abbrev pub slt : ℕ → ℕ → Bool
slt a b = ltb ((a + half) % modulus) ((b + half) % modulus)

abbrev pub wrap : ℕ → ℕ
wrap a = a % modulus

-- `a / k` for a positive constant k, rounded towards zero
abbrev pub sdiv : ℕ → ℕ → ℕ
sdiv a k = if ltb a half then a / k else wrap (modulus - (modulus - a) / k)
