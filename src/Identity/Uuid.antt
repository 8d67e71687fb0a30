-- ===== src/Identity/Uuid.antt =====
-- internal/identity/identity.go: `ValidUUID` and `UUID`.
pub mod Valid
use Prim.Native.Nat.{bit_and, bit_or}
use lanclip.Base.{
  ℕ, ◌+◌, ◌-◌, ◌*◌, ◌/◌, ◌%◌, ◌≤◌, ◌<◌, ◌≡◌, refl, ap, Bool, true, false, not, ◌&&◌, ◌||◌, Option,
  none, some, List, [], ◌∷◌, ◌++◌, Text, codes, arith, ltb, leb, ◌==◌, if◌then◌else◌, length, take,
  drop, get_elem?, retain, any, is_some,
}
use lanclip.Identity.Hex.{
  hex_digit, hex_encode, hex_decode, hex_decode-hex_encode, IsBytes, from_hex,
}

-- `s[i] == c`, where the length was tested before.
abbrev pub char_is : Text → ℕ → ℕ → Bool
char_is s i c = elim (get_elem? s i) [ none ↦ false | some d ↦ d == c ]

-- strings.ContainsRune("89ab", rune(s[19]))
abbrev pub is_variant : Text → Bool
is_variant s = char_is s 19 b'8' || char_is s 19 b'9' || char_is s 19 b'a' || char_is s 19 b'b'

-- strings.ReplaceAll(s, "-", "")
unfoldable pub drop_dashes : Text → Text
unfolding retain
drop_dashes = retain (λ c. not (c == b'-'))

abbrev pub has_uuid_marks : Text → Bool
has_uuid_marks s =
    char_is s 8 b'-'
    && char_is s 13 b'-'
    && char_is s 18 b'-'
    && char_is s 23 b'-'
    && char_is s 14 b'4'
    && is_variant s

unfoldable pub valid_uuid : Text → Bool
unfolding drop_dashes hex_decode
valid_uuid s =
    if length s == 36 && has_uuid_marks s then is_some (hex_decode (drop_dashes s)) else false

-- `b[6] = (b[6] & 0x0f) | 0x40` and `b[8] = (b[8] & 0x3f) | 0x80`
abbrev pub version_byte : ℕ → ℕ
version_byte b = bit_or (bit_and b 0x0f) 0x40

abbrev pub variant_byte : ℕ → ℕ
variant_byte b = bit_or (bit_and b 0x3f) 0x80

unfoldable pub stamp : Text → Text
stamp (b0 ∷ b1 ∷ b2 ∷ b3 ∷ b4 ∷ b5 ∷ b6 ∷ b7 ∷ b8 ∷ rest) =
    b0 ∷ b1 ∷ b2 ∷ b3 ∷ b4 ∷ b5 ∷ version_byte b6 ∷ b7 ∷ variant_byte b8 ∷ rest
stamp b = b

-- fmt.Sprintf("%08x-%04x-%04x-%04x-%012x", b[:4], b[4:6], b[6:8], b[8:10], b[10:])
unfoldable pub format : Text → Text
unfolding hex_encode
format b =
    hex_encode (take 4 b)
    ++ (b'-' ∷ hex_encode (take 2 (drop 4 b))
        ++ (b'-' ∷ hex_encode (take 2 (drop 6 b))
            ++ (b'-' ∷ hex_encode (take 2 (drop 8 b)) ++ (b'-' ∷ hex_encode (drop 10 b)))))

-- UUID, from the 16 random bytes, if the random source gives them.
unfoldable pub uuid : Option Text → Option Text
unfolding stamp format
uuid none = none
uuid (some b) = some (format (stamp b))
