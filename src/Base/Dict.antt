-- ===== src/Base/Dict.antt =====
-- Go maps with string keys, as association lists. The order of the list stands for the order in
-- which the runtime happens to range over the map.
use lanclip.Base.{
  suc, ◌≤◌, ◌≡◌, refl, Bool, true, List, [], ◌∷◌, Option, none, some, arith, Text, text_eq,
  text_eq_iff, if◌then◌else◌, length, is_some,
}

abbrev pub Dict {ℓ} : Type ℓ → Type ℓ
Dict V = List (Text × V)

module _ {ℓ} {V : Type ℓ} where
  unfoldable pub lookup : Text → Dict V → Option V
  lookup k [] = none
  lookup k ((j, v) ∷ m) = let rest = lookup k m in if text_eq j k then some v else rest

  -- m[k] = v
  unfoldable pub insert : Text → V → Dict V → Dict V
  insert k v [] = (k, v) ∷ []
  insert k v ((j, w) ∷ m) =
      let rest = insert k v m in if text_eq j k then (k, v) ∷ m else (j, w) ∷ rest

  -- delete(m, k)
  unfoldable pub erase : Text → Dict V → Dict V
  erase k [] = []
  erase k ((j, v) ∷ m) = let rest = erase k m in if text_eq j k then rest else (j, v) ∷ rest

  -- for k, v := range m { if !keep(v) { delete(m, k) } }
  unfoldable pub keep_values : (V → Bool) → Dict V → Dict V
  keep_values p [] = []
  keep_values p ((j, v) ∷ m) = let rest = keep_values p m in if p v then (j, v) ∷ rest else rest

  -- No key is listed twice.
  abbrev pub NodupKeys : Dict V → Type ℓ
  NodupKeys [] = Unit
  NodupKeys ((j, v) ∷ m) = (lookup j m ≡ none) × NodupKeys m

  -- Every key and its value satisfy P.
  abbrev pub Every {κ} : (Text → V → Type κ) → Dict V → Type κ
  Every P [] = Unit
  Every P ((j, v) ∷ m) = P j v × Every P m

  -- The two hold the same values under the same keys.
  abbrev pub SameMap : Dict V → Dict V → Type ℓ
  SameMap m n = (k : Text) → lookup k m ≡ lookup k n

module _ {ℓ} {V : Type ℓ} where
  pub lookup-insert :
      (j k : Text) (v : V) (m : Dict V)
      → lookup j (insert k v m) ≡ (if text_eq k j then some v else lookup j m)
  unfolding lookup insert
  lookup-insert j k v [] = refl
  lookup-insert j k v ((i, w) ∷ m) =
      ground (arith, text_eq_iff k j, text_eq_iff i k, text_eq_iff i j, lookup-insert j k v m)

  pub lookup-erase :
      (j k : Text) (m : Dict V) → lookup j (erase k m) ≡ (if text_eq k j then none else lookup j m)
  unfolding lookup erase
  lookup-erase j k [] = ground arith
  lookup-erase j k ((i, w) ∷ m) =
      ground (arith, text_eq_iff k j, text_eq_iff i k, text_eq_iff i j, lookup-erase j k m)

  pub lookup-keep_values-none :
      (j : Text) (p : V → Bool) (m : Dict V) → lookup j m ≡ none → lookup j (keep_values p m) ≡ none
  unfolding lookup keep_values
  lookup-keep_values-none j p [] h = refl
  lookup-keep_values-none j p ((i, w) ∷ m) h = ground (arith, lookup-keep_values-none j p m)

  abbrev pub when : (V → Bool) → Option V → Option V
  when p none = none
  when p (some v) = if p v then some v else none

  pub lookup-keep_values :
      (j : Text) (p : V → Bool) (m : Dict V)
      → NodupKeys m
      → lookup j (keep_values p m) ≡ when p (lookup j m)
  unfolding lookup keep_values
  lookup-keep_values j p [] u = refl
  lookup-keep_values j p ((i, w) ∷ m) u =
      ground
        (arith, text_eq_iff i j, lookup-keep_values j p m u.1, lookup-keep_values-none i p m u.0)

  pub insert-NodupKeys : (k : Text) (v : V) (m : Dict V) → NodupKeys m → NodupKeys (insert k v m)
  unfolding insert lookup
  insert-NodupKeys k v [] u = ground arith
  insert-NodupKeys k v ((i, w) ∷ m) u =
      ground
        (arith, text_eq_iff i k, insert-NodupKeys k v m u.1, lookup-insert i k v m, text_eq_iff k i)

  pub erase-NodupKeys : (k : Text) (m : Dict V) → NodupKeys m → NodupKeys (erase k m)
  unfolding erase
  erase-NodupKeys k [] u = tt
  erase-NodupKeys k ((i, w) ∷ m) u = ground (arith, erase-NodupKeys k m u.1, lookup-erase i k m)

  pub keep_values-NodupKeys :
      (p : V → Bool) (m : Dict V) → NodupKeys m → NodupKeys (keep_values p m)
  unfolding keep_values
  keep_values-NodupKeys p [] u = tt
  keep_values-NodupKeys p ((i, w) ∷ m) u =
      ground (arith, keep_values-NodupKeys p m u.1, lookup-keep_values-none i p m u.0)

  pub length-insert :
      (k : Text) (v : V) (m : Dict V)
      → length (insert k v m) ≡ (if is_some (lookup k m) then length m else suc (length m))
  unfolding insert lookup
  length-insert k v [] = refl
  length-insert k v ((i, w) ∷ m) = ground (arith, length-insert k v m)

  pub length-erase-le : (k : Text) (m : Dict V) → length (erase k m) ≤ length m
  unfolding erase
  length-erase-le k [] = omega arith
  length-erase-le k ((i, w) ∷ m) = ground (arith, length-erase-le k m)

  pub length-keep_values-le : (p : V → Bool) (m : Dict V) → length (keep_values p m) ≤ length m
  unfolding keep_values
  length-keep_values-le p [] = omega arith
  length-keep_values-le p ((i, w) ∷ m) = ground (arith, length-keep_values-le p m)

  -- A map that has the key grows shorter without it.
  pub length-erase-lt :
      (k : Text) (m : Dict V) → is_some (lookup k m) ≡ true → suc (length (erase k m)) ≤ length m
  unfolding erase lookup
  length-erase-lt k [] h = ground arith
  length-erase-lt k ((i, w) ∷ m) h = ground (arith, length-erase-lt k m, length-erase-le k m)
