-- ===== src/Prelude/Sorting.antt =====
-- `sort.SliceStable` and `sort.Strings` of Go's standard library, as a stable insertion sort by the
-- Boolean test `less`, with what the sources rely on: the result is a permutation, it is ordered,
-- and an ordered list is left alone.
use mathlib.Core.List.{Perm}
use mathlib.Core.List.Perm
use quotascale_controller.Prelude.{
  ◌≡◌, refl, ap, ◌∙◌, ◌⊎◌, Bool, true, false, ◌||◌, List, [], ◌∷◌, arith, if◌then◌else◌, All,
  All-imp, All-select, Bool-cases, inl, inr, select, any, count,
}

module _ {ℓ} {A : Type ℓ} (less : A → A → Bool) where
  insert : A → List A → List A
  insert x [] = x ∷ []
  insert x (y ∷ ys) = let rest = insert x ys in if less y x then y ∷ rest else x ∷ y ∷ ys

  unfoldable pub sort_stable : List A → List A
  unfolding insert
  sort_stable [] = []
  sort_stable (x ∷ xs) = insert x (sort_stable xs)

  -- No entry is less than one before it.
  abbrev pub IsOrdered : List A → Type ℓ
  IsOrdered [] = Unit
  IsOrdered (x ∷ xs) = All (λ y. less y x ≡ false) xs × IsOrdered xs

  insert-perm : (x : A) (xs : List A) → Perm (insert x xs) (x ∷ xs)
  unfolding insert
  insert-perm x [] = Perm.refl (x ∷ [])
  insert-perm x (y ∷ ys) = elim (Bool-cases (less y x)) [
    | inl e ↦ rw e (Perm.trans (Perm.cons y (insert-perm x ys)) (Perm.swap x y ys))
    | inr e ↦ rw e (Perm.refl (x ∷ y ∷ ys))
  ]

  pub sort_stable-perm : (xs : List A) → Perm (sort_stable xs) xs
  unfolding sort_stable
  sort_stable-perm [] = Perm.refl []
  sort_stable-perm (x ∷ xs) =
      Perm.trans (insert-perm x (sort_stable xs)) (Perm.cons x (sort_stable-perm xs))

  module _ {κ} (P : A → Type κ) where
    insert-All : (x : A) (xs : List A) → P x → All P xs → All P (insert x xs)
    unfolding insert
    insert-All x [] p h = (p, tt)
    insert-All x (y ∷ ys) p h = elim (Bool-cases (less y x)) [
      | inl e ↦ rw e (h.0, insert-All x ys p h.1)
      | inr e ↦ rw e (p, h)
    ]

    -- What holds of every entry holds after sorting.
    pub sort_stable-All : (xs : List A) → All P xs → All P (sort_stable xs)
    unfolding sort_stable
    sort_stable-All [] h = tt
    sort_stable-All (x ∷ xs) h = insert-All x (sort_stable xs) h.0 (sort_stable-All xs h.1)

  insert_first : (x : A) (xs : List A) → All (λ y. less y x ≡ false) xs → insert x xs ≡ x ∷ xs
  unfolding insert
  insert_first x [] h = refl
  insert_first x (y ∷ ys) h = rw h.0

  -- An ordered list is its own sort.
  pub sort_stable_of_IsOrdered : (xs : List A) → IsOrdered xs → sort_stable xs ≡ xs
  unfolding sort_stable
  sort_stable_of_IsOrdered [] h = refl
  sort_stable_of_IsOrdered (x ∷ xs) h = rw (sort_stable_of_IsOrdered xs h.1) (insert_first x xs h.0)

  any-insert : (p : A → Bool) (x : A) (xs : List A) → any p (insert x xs) ≡ any p (x ∷ xs)
  unfolding insert
  any-insert p x [] = refl
  any-insert p x (y ∷ ys) = ground (arith, any-insert p x ys)

  pub any-sort_stable : (p : A → Bool) (xs : List A) → any p (sort_stable xs) ≡ any p xs
  unfolding sort_stable
  any-sort_stable p [] = refl
  any-sort_stable p (x ∷ xs) =
      any-insert p x (sort_stable xs) ∙ ap (◌||◌ (p x)) (any-sort_stable p xs)

  count-insert : (p : A → Bool) (x : A) (xs : List A) → count p (insert x xs) ≡ count p (x ∷ xs)
  unfolding insert
  count-insert p x [] = refl
  count-insert p x (y ∷ ys) = ground (arith, count-insert p x ys)

  -- Sorting keeps the number of entries with any property.
  pub count-sort_stable : (p : A → Bool) (xs : List A) → count p (sort_stable xs) ≡ count p xs
  unfolding sort_stable
  count-sort_stable p [] = refl
  count-sort_stable p (x ∷ xs) =
      ground (arith, count-insert p x (sort_stable xs), count-sort_stable p xs)

  select-insert-perm :
      (p : A → Bool) (x : A) (xs : List A) → Perm (select p (insert x xs)) (select p (x ∷ xs))
  unfolding insert
  select-insert-perm p x [] = Perm.refl _
  select-insert-perm p x (y ∷ ys) = elim (Bool-cases (less y x)) [
    | inr e ↦ rw e (Perm.refl _)
    | inl e ↦ rw e (swapped (Bool-cases (p x)) (Bool-cases (p y)) (select-insert-perm p x ys))
  ]
    where
      swapped :
          (p x ≡ true) ⊎ (p x ≡ false)
          → (p y ≡ true) ⊎ (p y ≡ false)
          → Perm (select p (insert x ys)) (select p (x ∷ ys))
          → Perm (select p (y ∷ insert x ys)) (select p (x ∷ y ∷ ys))
      swapped (inl a) (inl b) ih =
          rw (a, b) (Perm.trans (Perm.cons y (rw a at ih)) (Perm.swap x y (select p ys)))
      swapped (inl a) (inr b) ih = rw (a, b) (rw a at ih)
      swapped (inr a) (inl b) ih = rw (a, b) (Perm.cons y (rw a at ih))
      swapped (inr a) (inr b) ih = rw (a, b) (rw a at ih)

  -- Selecting from the sorted list gives the same entries as selecting from the list.
  pub select-sort_stable-perm :
      (p : A → Bool) (xs : List A) → Perm (select p (sort_stable xs)) (select p xs)
  unfolding sort_stable
  select-sort_stable-perm p [] = Perm.refl []
  select-sort_stable-perm p (x ∷ xs) =
      Perm.trans (select-insert-perm p x (sort_stable xs)) (elim (Bool-cases (p x)) [
        | inl e ↦ rw e (Perm.cons x (select-sort_stable-perm p xs))
        | inr e ↦ rw e (select-sort_stable-perm p xs)
      ])

  pub select-IsOrdered : (p : A → Bool) (xs : List A) → IsOrdered xs → IsOrdered (select p xs)
  select-IsOrdered p [] h = tt
  select-IsOrdered p (x ∷ xs) h = elim (Bool-cases (p x)) [
    | inl e ↦ rw e (All-select _ p xs h.0, select-IsOrdered p xs h.1)
    | inr e ↦ rw e (select-IsOrdered p xs h.1)
  ]

  module _ (asym : (x y : A) → less x y ≡ true → less y x ≡ false)
      (trans : (x y z : A) → less y x ≡ false → less z y ≡ false → less z x ≡ false) where
    insert-IsOrdered : (x : A) (xs : List A) → IsOrdered xs → IsOrdered (insert x xs)
    unfolding insert
    insert-IsOrdered x [] h = (tt, tt)
    insert-IsOrdered x (y ∷ ys) h = elim (Bool-cases (less y x)) [
      | inl e ↦
          rw e (insert-All (λ z. less z y ≡ false) x ys (asym y x e) h.0, insert-IsOrdered x ys h.1)
      | inr e ↦ rw e ((e, All-imp _ ys (λ z k. trans x y z e k) h.0), h)
    ]

    -- Sorting orders the list.
    pub sort_stable-IsOrdered : (xs : List A) → IsOrdered (sort_stable xs)
    unfolding sort_stable
    sort_stable-IsOrdered [] = tt
    sort_stable-IsOrdered (x ∷ xs) = insert-IsOrdered x (sort_stable xs) (sort_stable-IsOrdered xs)
