-- ===== src/Base/Sorting.antt =====
-- sort.Slice. It may order equal elements in any way; here they keep their order.
use mathlib.Core.List.{Memᴰ}
use lanclip.Base.{
  Bool, true, List, [], ◌∷◌, ◌≡◌, refl, if◌then◌else◌, all, arith, Bool-cases, inl, inr,
}
use lanclip.Base.Members.{Each, cons-Each}

module _ {ℓ} {A : Type ℓ} (less : A → A → Bool) where
  unfoldable pub insert_sorted : A → List A → List A
  insert_sorted x [] = x ∷ []
  insert_sorted x (y ∷ ys) =
      let rest = insert_sorted x ys in if less y x then y ∷ rest else x ∷ y ∷ ys

  unfoldable pub sort_by : List A → List A
  unfolding insert_sorted
  sort_by [] = []
  sort_by (x ∷ xs) = insert_sorted x (sort_by xs)

  module _ (p : A → Bool) where
    all-insert_sorted :
        (x : A) (xs : List A) → p x ≡ true → all p xs ≡ true → all p (insert_sorted x xs) ≡ true
    unfolding insert_sorted all
    all-insert_sorted x [] h k = ground arith
    all-insert_sorted x (y ∷ ys) h k = ground (arith, all-insert_sorted x ys)

    -- Sorting keeps what holds of all elements.
    pub all-sort_by : (xs : List A) → all p xs ≡ true → all p (sort_by xs) ≡ true
    unfolding sort_by all
    all-sort_by [] k = refl
    all-sort_by (x ∷ xs) k =
        all-insert_sorted x (sort_by xs) (ground arith) (all-sort_by xs (ground arith))

  module _ {κ} (P : A → Type κ) where
    insert_sorted-Each : (x : A) (xs : List A) → P x → Each P xs → Each P (insert_sorted x xs)
    unfolding insert_sorted
    insert_sorted-Each x [] h e = cons-Each P x [] h e
    insert_sorted-Each x (y ∷ ys) h e =
        let rest = insert_sorted-Each x ys h (λ z m. e z (Memᴰ.tail m)) in
        elim (Bool-cases (less y x)) [
          | inl b ↦ rw (b, insert_sorted) (cons-Each P y _ (e y (Memᴰ.head refl)) rest)
          | inr b ↦ rw (b, insert_sorted) (cons-Each P x (y ∷ ys) h e)
        ]

    pub sort_by-Each : (xs : List A) → Each P xs → Each P (sort_by xs)
    unfolding sort_by
    sort_by-Each [] e = e
    sort_by-Each (x ∷ xs) e =
        insert_sorted-Each x (sort_by xs) (e x (Memᴰ.head refl))
          (sort_by-Each xs (λ z m. e z (Memᴰ.tail m)))
