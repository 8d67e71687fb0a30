-- ===== src/Base/Unicode.antt =====
-- What the program takes from Go's `strings` and `unicode` tables, by rune.
use lanclip.Base.{ℕ, Bool, [], ◌∷◌, Text, if◌then◌else◌}

pub record Unicode : Type 0 where
  -- unicode.IsSpace
  pub is_space : ℕ → Bool
  -- unicode.IsControl
  pub is_control : ℕ → Bool
  -- unicode.In(r, unicode.Cf, unicode.Zl, unicode.Zp)
  pub is_format : ℕ → Bool
  -- strings.EqualFold
  pub equal_fold : Text → Text → Bool
  -- strings.ToLower
  pub to_lower : Text → Text

unfoldable pub trim_left : (ℕ → Bool) → Text → Text
trim_left p [] = []
trim_left p (c ∷ s) = let rest = trim_left p s in if p c then rest else c ∷ s

abbrev pub cons_unless_blank : (ℕ → Bool) → ℕ → Text → Text
cons_unless_blank p c [] = if p c then [] else c ∷ []
cons_unless_blank p c (d ∷ s) = c ∷ d ∷ s

unfoldable pub trim_right : (ℕ → Bool) → Text → Text
trim_right p [] = []
trim_right p (c ∷ s) = cons_unless_blank p c (trim_right p s)

-- strings.TrimSpace
unfoldable pub trim_space : Unicode → Text → Text
unfolding trim_left trim_right
trim_space u s = trim_right u.is_space (trim_left u.is_space s)
