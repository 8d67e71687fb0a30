-- ===== src/Protocol/Utf8.antt =====
-- unicode/utf8: `Valid`.
use lanclip.Base.{ℕ, Bool, true, false, ◌&&◌, [], ◌∷◌, Text, ltb, leb, if◌then◌else◌, ◌==◌}

-- A continuation byte in a range.
abbrev pub within : ℕ → ℕ → ℕ → Bool
within lo hi c = leb lo c && leb c hi

abbrev pub is_tail : ℕ → Bool
is_tail = within 0x80 0xbf

-- The lowest and highest second byte after a first byte of three or four bytes.
abbrev pub second_low : ℕ → ℕ
second_low c = if c == 0xe0 then 0xa0 else if c == 0xf0 then 0x90 else 0x80

abbrev pub second_high : ℕ → ℕ
second_high c = if c == 0xed then 0x9f else if c == 0xf4 then 0x8f else 0xbf

abbrev pub is_second : ℕ → ℕ → Bool
is_second c = within (second_low c) (second_high c)

-- How many bytes a first byte announces; 0 for none.
abbrev pub width : ℕ → ℕ
width c =
    if ltb c 0x80
    then 1
    else if within 0xc2 0xdf c
    then 2
    else if within 0xe0 0xef c
    then 3
    else if within 0xf0 0xf4 c
    then 4
    else 0

unfoldable pub utf8_valid : Text → Bool
utf8_valid [] = true
utf8_valid (a ∷ []) = width a == 1
utf8_valid (a ∷ b ∷ []) = if width a == 1 then width b == 1 else width a == 2 && is_tail b
utf8_valid (a ∷ b ∷ c ∷ []) =
    let one = utf8_valid (b ∷ c ∷ []) in
    if width a == 1
    then one
    else if width a == 2
    then is_tail b && width c == 1
    else width a == 3 && is_second a b && is_tail c
utf8_valid (a ∷ b ∷ c ∷ d ∷ s) =
    let one = utf8_valid (b ∷ c ∷ d ∷ s) in
    let two = utf8_valid (c ∷ d ∷ s) in
    let three = utf8_valid (d ∷ s) in
    let four = utf8_valid s in
    if width a == 1
    then one
    else if width a == 2
    then (if is_tail b then two else false)
    else if width a == 3
    then (if is_second a b && is_tail c then three else false)
    else if width a == 4
    then (if is_second a b && is_tail c && is_tail d then four else false)
    else false
