-- ===== src/Base/Entries.antt =====
-- The entries of a Go map: properties of all of them, and those that a test selects.
use mathlib.Core.Path.{subst₂}
use lanclip.Base.{
  ◌≡◌, Bool, true, [], ◌∷◌, none, some, arith, Text, text_eq, text_eq_iff, Bool-cases, inl, inr,
  retain,
}
use lanclip.Base.Dict.{Dict, lookup, insert, erase, keep_values, NodupKeys, Every}

module _ {ℓ κ} {V : Type ℓ} (P : Text → V → Type κ) where
  pub Every-lookup : (k : Text) (m : Dict V) (v : V) → Every P m → lookup k m ≡ some v → P k v
  unfolding lookup
  Every-lookup k [] v e h = absurd (cc h)
  Every-lookup k ((j, w) ∷ m) v e h = elim (Bool-cases (text_eq j k)) [
    | inl hit ↦
        let same : j ≡ k = (text_eq_iff j k).0 hit in
        let found : w ≡ v = ground arith in subst₂ P same found e.0
    | inr miss ↦ Every-lookup k m v e.1 (ground arith)
  ]

  pub insert-Every : (k : Text) (v : V) (m : Dict V) → P k v → Every P m → Every P (insert k v m)
  unfolding insert
  insert-Every k v [] p e = (p, tt)
  insert-Every k v ((j, w) ∷ m) p e = elim (Bool-cases (text_eq j k)) [
    | inl hit ↦ rw hit (p, e.1)
    | inr miss ↦ rw miss (e.0, insert-Every k v m p e.1)
  ]

  pub erase-Every : (k : Text) (m : Dict V) → Every P m → Every P (erase k m)
  unfolding erase
  erase-Every k [] e = e
  erase-Every k ((j, w) ∷ m) e = elim (Bool-cases (text_eq j k)) [
    | inl hit ↦ rw hit (erase-Every k m e.1)
    | inr miss ↦ rw miss (e.0, erase-Every k m e.1)
  ]

  pub keep_values-Every : (p : V → Bool) (m : Dict V) → Every P m → Every P (keep_values p m)
  unfolding keep_values
  keep_values-Every p [] e = e
  keep_values-Every p ((j, w) ∷ m) e = elim (Bool-cases (p w)) [
    | inl hit ↦ rw hit (e.0, keep_values-Every p m e.1)
    | inr miss ↦ rw miss (keep_values-Every p m e.1)
  ]

module _ {ℓ κ μ} {V : Type ℓ} (P : Text → V → Type κ) (Q : Text → V → Type μ) where
  pub Every-imp : (m : Dict V) → ((k : Text) (v : V) → P k v → Q k v) → Every P m → Every Q m
  Every-imp [] f e = tt
  Every-imp ((k, v) ∷ m) f e = (f k v e.0, Every-imp m f e.1)

module _ {ℓ} {V : Type ℓ} (f : Text × V → Bool) where
  -- An entry that the test selects: it is what the map holds under its key.
  abbrev pub Selected : Dict V → Text → V → Type ℓ
  Selected m k v = (lookup k m ≡ some v) × (f (k, v) ≡ true)

  Selected-cons :
      (i : Text) (w : V) (m : Dict V) (k : Text) (v : V)
      → lookup i m ≡ none
      → Selected m k v
      → Selected ((i, w) ∷ m) k v
  unfolding lookup
  Selected-cons i w m k v fresh s = ground (arith, text_eq_iff i k)

  pub retain-Selected : (m : Dict V) → NodupKeys m → Every (Selected m) (retain f m)
  unfolding retain lookup
  retain-Selected [] u = tt
  retain-Selected ((i, w) ∷ m) u =
      let rest : Every (Selected ((i, w) ∷ m)) (retain f m) =
        Every-imp (Selected m) (Selected ((i, w) ∷ m)) (retain f m)
          (λ k v. Selected-cons i w m k v u.0) (retain-Selected m u.1) in
      elim (Bool-cases (f (i, w))) [
        | inl hit ↦ rw hit ((ground (arith, text_eq_iff i i), hit), rest)
        | inr miss ↦ rw miss rest
      ]

module _ {ℓ κ} {V : Type ℓ} (P : Text → V → Type κ) where
  pub lookup_tail :
      (i : Text) (w : V) (m : Dict V) (k : Text) (v : V)
      → lookup i m ≡ none
      → lookup k m ≡ some v
      → lookup k ((i, w) ∷ m) ≡ some v
  unfolding lookup
  lookup_tail i w m k v fresh e = ground (arith, text_eq_iff i k)

  -- What holds of all that a lookup finds holds of every entry.
  pub Every-of_lookup :
      (m : Dict V) → NodupKeys m → ((k : Text) (v : V) → lookup k m ≡ some v → P k v) → Every P m
  unfolding lookup
  Every-of_lookup [] u f = tt
  Every-of_lookup ((i, w) ∷ m) u f = (
    f i w (ground (arith, text_eq_iff i i)),
    Every-of_lookup m u.1 (λ k v e. f k v (lookup_tail i w m k v u.0 e)),
  )
