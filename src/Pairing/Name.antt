-- ===== src/Pairing/Name.antt =====
-- internal/pairing/name.go. A name is given by its runes, as Go's `range` and `[]rune` see it.
pub mod Clean
use lanclip.Base.{ℕ, Bool, not, ◌||◌, Text, ltb, if◌then◌else◌, length, take, retain}
use lanclip.Base.Unicode.{Unicode, trim_space}

abbrev pub max_device_name_runes : ℕ
max_device_name_runes = 128

-- The runes that strings.Map drops.
abbrev pub is_dropped : Unicode → ℕ → Bool
is_dropped u r = u.is_control r || u.is_format r

abbrev pub strip : Unicode → Text → Text
strip u = retain (λ r. not (is_dropped u r))

unfoldable pub normalize_device_name : Unicode → Text → Text
unfolding retain trim_space
normalize_device_name u name =
    let runes = trim_space u (strip u name) in
    if ltb max_device_name_runes (length runes) then take max_device_name_runes runes else runes
