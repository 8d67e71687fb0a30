-- ===== src/Identity/Hex.antt =====
-- encoding/hex, and the fingerprints of internal/identity/identity.go. The digest is a parameter.
use lanclip.Base.{
  ℕ, ◌+◌, ◌-◌, ◌*◌, ◌/◌, ◌%◌, ◌<◌, ◌≡◌, refl, ap, Bool, false, ◌&&◌, Option, none, some, List, [],
  ◌∷◌, ◌++◌, Text, arith, ltb, leb, ◌==◌, if◌then◌else◌, length, take, is_some,
}

-- crypto/sha256: an array of 32 bytes.
pub record Sha256 : Type 0 where
  pub sum : Text → Text
  pub length_sum : (t : Text) → length (sum t) ≡ 32

abbrev pub hex_digit : ℕ → ℕ
hex_digit n = if ltb n 10 then b'0' + n else b'a' + (n - 10)

-- hex.EncodeToString
unfoldable pub hex_encode : Text → Text
hex_encode [] = []
hex_encode (b ∷ bs) = hex_digit (b / 16) ∷ hex_digit (b % 16) ∷ hex_encode bs

-- Both cases of letters are digits.
abbrev pub from_hex : ℕ → Option ℕ
from_hex c =
    if leb b'0' c && leb c b'9'
    then some (c - b'0')
    else if leb b'a' c && leb c b'f'
    then some (c - b'a' + 10)
    else if leb b'A' c && leb c b'F'
    then some (c - b'A' + 10)
    else none

abbrev pub both : Option ℕ → Option ℕ → Option (List ℕ) → Option (List ℕ)
both (some h) (some l) (some bs) = some ((16 * h + l) ∷ bs)
both _ _ _ = none

-- hex.DecodeString; `none` is its error.
unfoldable pub hex_decode : Text → Option Text
hex_decode [] = some []
hex_decode (h ∷ []) = none
hex_decode (h ∷ l ∷ s) = both (from_hex h) (from_hex l) (hex_decode s)

-- Every number of the text is a byte.
abbrev pub IsBytes : Text → Type 0
IsBytes [] = Unit
IsBytes (b ∷ bs) = (b < 256) × IsBytes bs

pub from_hex-hex_digit : (n : ℕ) → n < 16 → from_hex (hex_digit n) ≡ some n
from_hex-hex_digit n h = ground arith

pub hex_decode-hex_encode : (bs : Text) → IsBytes bs → hex_decode (hex_encode bs) ≡ some bs
unfolding hex_encode hex_decode
hex_decode-hex_encode [] h = refl
hex_decode-hex_encode (b ∷ bs) h =
    rw
      (
        from_hex-hex_digit (b / 16) (omega arith),
        from_hex-hex_digit (b % 16) (omega arith),
        hex_decode-hex_encode bs h.1,
      )
      (ap (λ c. some (c ∷ bs)) (omega arith))

pub length-hex_encode : (bs : Text) → length (hex_encode bs) ≡ 2 * length bs
unfolding hex_encode
length-hex_encode [] = refl
length-hex_encode (b ∷ bs) = omega (arith, length-hex_encode bs)

-- Fingerprint
unfoldable pub fingerprint : Sha256 → Text → Text
fingerprint h der = hex_encode (h.sum der)

-- ShortFingerprint, over the certificate
unfoldable pub short_fingerprint : Sha256 → Text → Text
unfolding fingerprint
short_fingerprint h der = take 16 (fingerprint h der)

-- ValidFingerprint
unfoldable pub valid_fingerprint : Text → ℕ → Bool
unfolding hex_decode
valid_fingerprint s bytes = if length s == bytes * 2 then is_some (hex_decode s) else false

pub hex_encode-append : (bs cs : Text) → hex_encode (bs ++ cs) ≡ hex_encode bs ++ hex_encode cs
unfolding hex_encode
hex_encode-append [] cs = refl
hex_encode-append (b ∷ bs) cs = rw (hex_encode-append bs cs)
