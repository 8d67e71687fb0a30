-- ===== src/Pairing/Name/Clean.antt =====
-- internal/pairing/name.go: what a normalised name looks like.
use lanclip.Base.{
  ℕ, zero, suc, ◌≤◌, ◌≡◌, refl, Bool, true, not, [], ◌∷◌, Text, ltb, length, take, length-take, all,
  all-retain, arith, Bool-cases, inl, inr,
}
use lanclip.Base.Unicode.{Unicode, trim_left, trim_right, cons_unless_blank, trim_space}
use lanclip.Pairing.Name.{max_device_name_runes, is_dropped, strip, normalize_device_name}

module _ (f : ℕ → Bool) where
  all-take : (n : ℕ) (s : Text) → all f s ≡ true → all f (take n s) ≡ true
  unfolding all
  all-take zero s h = refl
  all-take (suc n) [] h = refl
  all-take (suc n) (c ∷ s) h = ground (arith, all-take n s)

  all-trim_left : (p : ℕ → Bool) (s : Text) → all f s ≡ true → all f (trim_left p s) ≡ true
  unfolding all trim_left
  all-trim_left p [] h = refl
  all-trim_left p (c ∷ s) h = ground (arith, all-trim_left p s)

  all-trim_right : (p : ℕ → Bool) (s : Text) → all f s ≡ true → all f (trim_right p s) ≡ true
  unfolding all trim_right
  all-trim_right p [] h = refl
  all-trim_right p (c ∷ s) h =
      elim (trim_right p s) as (λ r. all f r ≡ true → all f (cons_unless_blank p c r) ≡ true) [
        | [] ↦ λ k. ground arith
        | d ∷ t ↦ λ k. ground (arith, k)
      ]
        (all-trim_right p s (ground arith))

-- The runes that a normalised name may have.
abbrev pub is_shown : Unicode → ℕ → Bool
is_shown u r = not (is_dropped u r)

-- A normalised name has at most 128 runes, and none of them is a control or formatting character,
-- whatever came from the network.
pub normalize_device_name_clean :
    (u : Unicode) (name : Text)
    → (length (normalize_device_name u name) ≤ max_device_name_runes)
      × (all (is_shown u) (normalize_device_name u name) ≡ true)
unfolding normalize_device_name trim_space
normalize_device_name_clean u name =
    let kept = strip u name in
    let shown = all-retain (is_shown u) name in
    let runes = trim_space u kept in
    let clean =
      all-trim_right (is_shown u) u.is_space (trim_left u.is_space kept)
        (all-trim_left (is_shown u) u.is_space kept shown) in
    elim (Bool-cases (ltb max_device_name_runes (length runes))) [
      | inl long ↦ rw long (
        ground (arith, length-take max_device_name_runes runes),
        all-take (is_shown u) max_device_name_runes runes clean,
      )
      | inr short ↦ rw short (ground (arith, short), clean)
    ]
