-- ===== src/Base/Members.antt =====
-- Lists as bags: what each element satisfies, and the removal of one by its place.
use mathlib.Core.Path.{subst}
use mathlib.Core.List.Memᴰ
use mathlib.Core.List.{Memᴰ}
use lanclip.Base.{ℕ, zero, suc, ◌≡◌, sym, ◌⊎◌, inl, inr, some, List, [], ◌∷◌, ◌++◌, get_elem?}

module _ {ℓ} {A : Type ℓ} where
  unfoldable pub remove_at : ℕ → List A → List A
  remove_at i [] = []
  remove_at zero (x ∷ xs) = xs
  remove_at (suc i) (x ∷ xs) = x ∷ remove_at i xs

  pub get_elem?-Memᴰ : (xs : List A) (i : ℕ) (x : A) → get_elem? xs i ≡ some x → Memᴰ x xs
  get_elem?-Memᴰ [] i x e = absurd (cc e)
  get_elem?-Memᴰ (y ∷ ys) zero x e = Memᴰ.head (sym (cc e))
  get_elem?-Memᴰ (y ∷ ys) (suc i) x e = Memᴰ.tail (get_elem?-Memᴰ ys i x e)

  pub remove_at-Memᴰ : (xs : List A) (i : ℕ) (x : A) → Memᴰ x (remove_at i xs) → Memᴰ x xs
  unfolding remove_at
  remove_at-Memᴰ [] i x m = m
  remove_at-Memᴰ (y ∷ ys) zero x m = Memᴰ.tail m
  remove_at-Memᴰ (y ∷ ys) (suc i) x m = elim (Memᴰ.cases_cons m) [
    | inl e ↦ Memᴰ.head e
    | inr n ↦ Memᴰ.tail (remove_at-Memᴰ ys i x n)
  ]

  -- What was there is the element removed, or stays.
  pub remove_at-cases :
      (xs : List A) (i : ℕ) (x y : A)
      → get_elem? xs i ≡ some y
      → Memᴰ x xs
      → (x ≡ y) ⊎ Memᴰ x (remove_at i xs)
  unfolding remove_at
  remove_at-cases [] i x y e m = absurd (cc e)
  remove_at-cases (z ∷ zs) zero x y e m = elim (Memᴰ.cases_cons m) [
    | inl h ↦ inl (cc (h, e))
    | inr n ↦ inr n
  ]
  remove_at-cases (z ∷ zs) (suc i) x y e m = elim (Memᴰ.cases_cons m) [
    | inl h ↦ inr (Memᴰ.head h)
    | inr n ↦ elim (remove_at-cases zs i x y e n) [ inl h ↦ inl h | inr k ↦ inr (Memᴰ.tail k) ]
  ]

module _ {ℓ κ} {A : Type ℓ} where
  abbrev pub Each : (A → Type κ) → List A → Type (ℓ ⊔ κ)
  Each P xs = (x : A) → Memᴰ x xs → P x

module _ {ℓ κ} {A : Type ℓ} (P : A → Type κ) where
  pub nil-Each : Each P []
  nil-Each x m = elim m [ ]

  pub cons-Each : (x : A) (xs : List A) → P x → Each P xs → Each P (x ∷ xs)
  cons-Each x xs p ps y m = elim (Memᴰ.cases_cons m) [ inl e ↦ subst P (sym e) p | inr n ↦ ps y n ]

  pub append-Each : (xs ys : List A) → Each P xs → Each P ys → Each P (xs ++ ys)
  append-Each xs ys ps qs y m = elim (Memᴰ.append_cases xs m) [ inl n ↦ ps y n | inr n ↦ qs y n ]

  pub remove_at-Each : (xs : List A) (i : ℕ) → Each P xs → Each P (remove_at i xs)
  remove_at-Each xs i ps y m = ps y (remove_at-Memᴰ xs i y m)

  pub get_elem?-Each : (xs : List A) (i : ℕ) (x : A) → get_elem? xs i ≡ some x → Each P xs → P x
  get_elem?-Each xs i x e ps = ps x (get_elem?-Memᴰ xs i x e)
