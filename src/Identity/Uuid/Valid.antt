-- ===== src/Identity/Uuid/Valid.antt =====
-- What `UUID` makes, `ValidUUID` accepts.
use lanclip.Base.{
  ℕ, ◌/◌, ◌%◌, ◌≤◌, ◌<◌, ◌≡◌, ◌≢◌, ◌∙◌, refl, ap, Bool, true, false, ◌&&◌, Option, none, some, List,
  [], ◌∷◌, ◌++◌, Text, arith, ltb, leb, ◌==◌, if◌then◌else◌, length, take, drop, is_some,
  Option-cases, inl, inr, all_below, below-all_below, take-append-drop, suc, zero,
}
use lanclip.Identity.Hex.{
  hex_digit, hex_encode, hex_decode, hex_decode-hex_encode, hex_encode-append, IsBytes, from_hex,
  both,
}
use lanclip.Identity.Uuid.{
  has_uuid_marks, drop_dashes, valid_uuid, version_byte, variant_byte, format, uuid,
}

hex_digit-ne-dash : (n : ℕ) → n < 16 → (hex_digit n == b'-') ≡ false
hex_digit-ne-dash n h = ground arith

drop_dashes-hex_encode :
    (bs cs : Text)
    → IsBytes bs
    → drop_dashes (hex_encode bs ++ cs) ≡ hex_encode bs ++ drop_dashes cs
unfolding drop_dashes hex_encode
drop_dashes-hex_encode [] cs h = refl
drop_dashes-hex_encode (b ∷ bs) cs h = rw (
  hex_digit-ne-dash (b / 16) (omega arith),
  hex_digit-ne-dash (b % 16) (omega arith),
  drop_dashes-hex_encode bs cs h.1,
)

drop_dashes-dash : (cs : Text) → drop_dashes (b'-' ∷ cs) ≡ drop_dashes cs
unfolding drop_dashes
drop_dashes-dash cs = refl

version_table : all_below 256 (λ b. ltb (version_byte b) 256 && (version_byte b / 16 == 4)) ≡ true
unfolding all_below
version_table = refl

variant_table :
    all_below 256 (λ b.
      ltb (variant_byte b) 256 && (leb 8 (variant_byte b / 16) && leb (variant_byte b / 16) 11))
    ≡ true
unfolding all_below
variant_table = refl

version_byte_range : (b : ℕ) → b < 256 → (version_byte b < 256) × (version_byte b / 16 ≡ 4)
version_byte_range b h = ground (
  arith,
  below-all_below (λ b. ltb (version_byte b) 256 && (version_byte b / 16 == 4)) 256 b h
      version_table,
)

variant_byte_range :
    (b : ℕ)
    → b < 256
    → (variant_byte b < 256) × (8 ≤ variant_byte b / 16) × (variant_byte b / 16 ≤ 11)
variant_byte_range b h = ground (
  arith,
  below-all_below
      (λ b.
        ltb (variant_byte b) 256 && (leb 8 (variant_byte b / 16) && leb (variant_byte b / 16) 11))
      256 b h variant_table,
)

IsBytes-take : (n : ℕ) (bs : Text) → IsBytes bs → IsBytes (take n bs)
IsBytes-take zero bs h = tt
IsBytes-take (suc n) [] h = tt
IsBytes-take (suc n) (b ∷ bs) h = (h.0, IsBytes-take n bs h.1)

IsBytes-drop : (n : ℕ) (bs : Text) → IsBytes bs → IsBytes (drop n bs)
IsBytes-drop zero bs h = h
IsBytes-drop (suc n) [] h = tt
IsBytes-drop (suc n) (b ∷ bs) h = IsBytes-drop n bs h.1

drop_dashes-hex_encode_end : (bs : Text) → IsBytes bs → drop_dashes (hex_encode bs) ≡ hex_encode bs
unfolding drop_dashes hex_encode
drop_dashes-hex_encode_end [] h = refl
drop_dashes-hex_encode_end (b ∷ bs) h = rw (
  hex_digit-ne-dash (b / 16) (omega arith),
  hex_digit-ne-dash (b % 16) (omega arith),
  drop_dashes-hex_encode_end bs h.1,
)

drop_two {ℓ} : {A : Type ℓ} (n : ℕ) (b : List A) → drop 2 (drop n b) ≡ drop (suc (suc n)) b
drop_two zero b = refl
drop_two (suc n) [] = refl
drop_two (suc n) (x ∷ b) = drop_two n b

slice_two : (n : ℕ) (b : Text) → take 2 (drop n b) ++ drop (suc (suc n)) b ≡ drop n b
slice_two n b = rw (← drop_two n b) (take-append-drop 2 (drop n b))

encode_slices :
    (b : Text)
    → hex_encode (take 4 b)
        ++ (hex_encode (take 2 (drop 4 b))
            ++ (hex_encode (take 2 (drop 6 b))
                ++ (hex_encode (take 2 (drop 8 b)) ++ hex_encode (drop 10 b))))
      ≡ hex_encode b
encode_slices b =
    rw
      (
        ← hex_encode-append (take 2 (drop 8 b)) (drop 10 b),
        slice_two 8 b,
        ← hex_encode-append (take 2 (drop 6 b)) (drop 8 b),
        slice_two 6 b,
        ← hex_encode-append (take 2 (drop 4 b)) (drop 6 b),
        slice_two 4 b,
        ← hex_encode-append (take 4 b) (drop 4 b),
      )
      (ap hex_encode (take-append-drop 4 b))

-- The format of bytes loses nothing but the dashes.
drop_dashes-format : (b : Text) → IsBytes b → drop_dashes (format b) ≡ hex_encode b
unfolding format
drop_dashes-format b h =
    rw
      (
        drop_dashes-hex_encode (take 4 b) _ (IsBytes-take 4 b h),
        drop_dashes-dash,
        drop_dashes-hex_encode (take 2 (drop 4 b)) _ (IsBytes-take 2 _ (IsBytes-drop 4 b h)),
        drop_dashes-dash,
        drop_dashes-hex_encode (take 2 (drop 6 b)) _ (IsBytes-take 2 _ (IsBytes-drop 6 b h)),
        drop_dashes-dash,
        drop_dashes-hex_encode (take 2 (drop 8 b)) _ (IsBytes-take 2 _ (IsBytes-drop 8 b h)),
        drop_dashes-dash,
        drop_dashes-hex_encode_end (drop 10 b) (IsBytes-drop 10 b h),
      )
      (encode_slices b)

marks-format :
    (b0 b1 b2 b3 b4 b5 b6 b7 b8 b9 b10 b11 b12 b13 b14 b15 : ℕ)
    → b6 / 16 ≡ 4
    → 8 ≤ b8 / 16
    → b8 / 16 ≤ 11
    → let s = format (
        b0 ∷ b1 ∷ b2 ∷ b3 ∷ b4 ∷ b5 ∷ b6 ∷ b7 ∷ b8 ∷ b9 ∷ b10 ∷ b11 ∷ b12 ∷ b13 ∷ b14 ∷ b15 ∷ []) in
      (length s == 36 && has_uuid_marks s) ≡ true
unfolding format
marks-format b0 b1 b2 b3 b4 b5 b6 b7 b8 b9 b10 b11 b12 b13 b14 b15 e f g = ground (arith, e, f, g)

format-valid_uuid :
    (b : Text)
    → IsBytes b
    → (length (format b) == 36 && has_uuid_marks (format b)) ≡ true
    → valid_uuid (format b) ≡ true
unfolding valid_uuid
format-valid_uuid b h e = rw (e, drop_dashes-format b h, hex_decode-hex_encode b h)

format_stamped :
    (b0 b1 b2 b3 b4 b5 b6 b7 b8 b9 b10 b11 b12 b13 b14 b15 : ℕ)
    → let b =
        b0 ∷ b1 ∷ b2 ∷ b3 ∷ b4 ∷ b5 ∷ b6 ∷ b7 ∷ b8 ∷ b9 ∷ b10 ∷ b11 ∷ b12 ∷ b13 ∷ b14 ∷ b15 ∷ [] in
      IsBytes b → b6 / 16 ≡ 4 → 8 ≤ b8 / 16 → b8 / 16 ≤ 11 → valid_uuid (format b) ≡ true
format_stamped b0 b1 b2 b3 b4 b5 b6 b7 b8 b9 b10 b11 b12 b13 b14 b15 h e f g =
    format-valid_uuid _ h (marks-format b0 b1 b2 b3 b4 b5 b6 b7 b8 b9 b10 b11 b12 b13 b14 b15 e f g)

-- Every ID that UUID makes of 16 random bytes is one that ValidUUID accepts.
pub valid_uuid-uuid :
    (b : Text)
    → length b ≡ 16
    → IsBytes b
    → (s : Text) × (uuid (some b) ≡ some s) × (valid_uuid s ≡ true)
unfolding uuid
valid_uuid-uuid
      (b0 ∷ b1 ∷ b2 ∷ b3 ∷ b4 ∷ b5 ∷ b6 ∷ b7 ∷ b8 ∷ b9 ∷ b10 ∷ b11 ∷ b12 ∷ b13 ∷ b14 ∷ b15 ∷ []) e
      h =
    let version = version_byte_range b6 (omega arith) in
    let variant = variant_byte_range b8 (omega arith) in
    (
      format (
          b0
          ∷ b1
          ∷ b2
          ∷ b3
          ∷ b4
          ∷ b5
          ∷ version_byte b6
          ∷ b7
          ∷ variant_byte b8
          ∷ b9
          ∷ b10
          ∷ b11
          ∷ b12
          ∷ b13
          ∷ b14
          ∷ b15
          ∷ []),
      refl,
      format_stamped b0 b1 b2 b3 b4 b5 (version_byte b6) b7 (variant_byte b8) b9 b10 b11 b12 b13 b14
          b15 (omega arith) version.1 variant.1 variant.2,
    )
valid_uuid-uuid _ e h = absurd (omega arith)

guarded :
    (t x y : Bool)
    → (x ≡ true → y ≡ true)
    → (if t then x else false) ≡ true
    → (if t then y else false) ≡ true
guarded true x y f e = f e
guarded false x y f e = e

kept_both :
    (a b : ℕ) (s : Text) → a ≢ b'-' → b ≢ b'-' → drop_dashes (a ∷ b ∷ s) ≡ a ∷ b ∷ drop_dashes s
unfolding drop_dashes
kept_both a b s h k = ground arith

both-none : (x y : Option ℕ) → both x y none ≡ none
both-none none y = refl
both-none (some x) none = refl
both-none (some x) (some y) = refl

undecoded : (a b : ℕ) (s : Text) → hex_decode s ≡ none → hex_decode (a ∷ b ∷ s) ≡ none
unfolding hex_decode
undecoded a b s e = rw e (both-none (from_hex a) (from_hex b))

digits_left :
    (a b : ℕ) (s : Text)
    → a ≢ b'-'
    → b ≢ b'-'
    → is_some (hex_decode (drop_dashes (a ∷ b ∷ s))) ≡ true
    → is_some (hex_decode (drop_dashes s)) ≡ true
unfolding drop_dashes
digits_left a b s h k e = elim (Option-cases (hex_decode (drop_dashes s))) [
  | inr (t, f) ↦ rw f
  | inl f ↦
      absurd
        (cc (e, ap is_some (ap hex_decode (kept_both a b s h k) ∙ undecoded a b (drop_dashes s) f)))
]

-- ValidUUID takes away every dash, not only the four that it asks for: with the first two characters
-- of a valid ID overwritten by dashes, the ID is still valid, though 30 digits are left.
pub valid_uuid_extra_dashes :
    (a b : ℕ) (s : Text)
    → a ≢ b'-'
    → b ≢ b'-'
    → valid_uuid (a ∷ b ∷ s) ≡ true
    → valid_uuid (b'-' ∷ b'-' ∷ s) ≡ true
unfolding valid_uuid
valid_uuid_extra_dashes a b s h k e =
    guarded (length (a ∷ b ∷ s) == 36 && has_uuid_marks (a ∷ b ∷ s)) _ _ (digits_left a b s h k) e
