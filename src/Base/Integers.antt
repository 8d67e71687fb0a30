-- ===== src/Base/Integers.antt =====
-- Go's int where a value from outside may be negative.
use lanclip.Base.{ℕ, Bool, false, ◌&&◌, leb, ◌==◌}

pub data ℤ : Type 0 where
  pos negsuc : ℕ → ℤ

-- lo <= n && n <= hi
abbrev pub in_range : ℕ → ℕ → ℤ → Bool
in_range lo hi (pos n) = leb lo n && leb n hi
in_range lo hi (negsuc n) = false

abbrev pub is_int : ℕ → ℤ → Bool
is_int k (pos n) = n == k
is_int k (negsuc n) = false
