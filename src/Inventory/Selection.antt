-- ===== src/Inventory/Selection.antt =====
-- `FindUnusedInventoryNodes` and `FindHighestOrderUsedInventoryNodes` against a specification: the
-- first entries of the sorted inventory that pass the test, as many as the limit allows.
use mathlib.Core.List.{Perm, append-nil, append_assoc}
use quotascale_controller.Prelude.{
  ℕ, zero, suc, ◌+◌, ◌≡◌, refl, sym, ap, ◌∙◌, inl, inr, Bool, true, false, List, [], ◌∷◌, ◌++◌, map,
  arith, select, count, take, min, Bool-cases, All, All-take, length, length-append, length-select,
}
use quotascale_controller.Prelude.Int.{pos, ◌==ℤ◌}
use quotascale_controller.Prelude.Sorting.{
  sort_stable, IsOrdered, select-sort_stable-perm, select-IsOrdered, count-sort_stable,
}
use quotascale_controller.Inventory.{collect}

module _ {ℓ κ} {A : Type ℓ} {B : Type κ} (test : A → Bool) (f : A → B) (k : ℕ) where
  -- The loop returns what it has with the first passing entries up to the limit.
  collect_from :
      (selected : List B) (xs : List A) (room : ℕ)
      → length selected + suc room ≡ k
      → collect test f (pos k) selected xs ≡ selected ++ map f (take (suc room) (select test xs))
  unfolding collect
  collect_from selected [] room h = sym (append-nil selected)
  collect_from selected (x ∷ xs) zero h = elim (Bool-cases (test x)) [
    | inr e ↦ rw (e, collect) (collect_from selected xs zero h)
    | inl e ↦ rw (e, collect, full) refl
  ]
    where
      full : (pos (length (selected ++ f x ∷ [])) ==ℤ pos k) ≡ true
      full = ground (arith, length-append selected (f x ∷ []))
  collect_from selected (x ∷ xs) (suc room) h = elim (Bool-cases (test x)) [
    | inr e ↦ rw (e, collect) (collect_from selected xs (suc room) h)
    | inl e ↦
        rw (e, collect, not_full)
          (collect_from (selected ++ f x ∷ []) xs room length_suc
            ∙ append_assoc selected (f x ∷ []) _)
  ]
    where
      length_suc : length (selected ++ f x ∷ []) + suc room ≡ k
      length_suc = omega (arith, length-append selected (f x ∷ []))

      not_full : (pos (length (selected ++ f x ∷ [])) ==ℤ pos k) ≡ false
      not_full = ground (arith, length-append selected (f x ∷ []))

-- From no entry on, with a positive limit: the first entries that pass, as many as the limit allows.
pub collect-eq-take {ℓ κ} :
    {A : Type ℓ} {B : Type κ} (test : A → Bool) (f : A → B) (k : ℕ) (xs : List A)
    → collect test f (pos (suc k)) [] xs ≡ map f (take (suc k) (select test xs))
collect-eq-take test f k xs = collect_from test f (suc k) [] xs k (omega arith)

pub map_id {ℓ} : {A : Type ℓ} (xs : List A) → map (λ x. x) xs ≡ xs
map_id [] = refl
map_id (x ∷ xs) = ap (◌∷◌ x) (map_id xs)

abbrev rest_of {ℓ} : {A : Type ℓ} → ℕ → List A → List A
rest_of zero xs = xs
rest_of (suc n) [] = []
rest_of (suc n) (x ∷ xs) = rest_of n xs

take-append-rest {ℓ} : {A : Type ℓ} (n : ℕ) (xs : List A) → take n xs ++ rest_of n xs ≡ xs
take-append-rest zero xs = refl
take-append-rest (suc n) [] = refl
take-append-rest (suc n) (x ∷ xs) = ap (◌∷◌ x) (take-append-rest n xs)

length-take-min {ℓ} : {A : Type ℓ} (n : ℕ) (xs : List A) → length (take n xs) ≡ min n (length xs)
length-take-min zero xs = omega arith
length-take-min (suc n) [] = omega arith
length-take-min (suc n) (x ∷ xs) = omega (arith, length-take-min n xs)

All-rest {ℓ κ} :
    {A : Type ℓ} (P : A → Type κ) (n : ℕ) (xs : List A) → All P xs → All P (rest_of n xs)
All-rest P zero xs h = h
All-rest P (suc n) [] h = tt
All-rest P (suc n) (x ∷ xs) h = All-rest P n xs h.1

-- No entry of `rest` comes before one of `chosen`.
abbrev pub Precedes {ℓ} : {A : Type ℓ} → (A → A → Bool) → List A → List A → Type 0
Precedes less chosen rest = All (λ x. All (λ y. less y x ≡ false) rest) chosen

module _ {ℓ} {A : Type ℓ} (less : A → A → Bool) where
  take-IsOrdered : (n : ℕ) (xs : List A) → IsOrdered less xs → IsOrdered less (take n xs)
  take-IsOrdered zero xs h = tt
  take-IsOrdered (suc n) [] h = tt
  take-IsOrdered (suc n) (x ∷ xs) h = (All-take _ n xs h.0, take-IsOrdered n xs h.1)

  take-Precedes :
      (n : ℕ) (xs : List A) → IsOrdered less xs → Precedes less (take n xs) (rest_of n xs)
  take-Precedes zero xs h = tt
  take-Precedes (suc n) [] h = tt
  take-Precedes (suc n) (x ∷ xs) h = (All-rest _ n xs h.0, take-Precedes n xs h.1)

-- What a selection promises: `chosen` and some `rest` are together the entries that pass;
-- `chosen` is as long as the limit and the entries allow; it is in order; and nothing in `rest`
-- comes before any of it.
pub record IsSelection {A : Type 0} (less : A → A → Bool) (test : A → Bool) (entries : List A)
    (limit : ℕ) (chosen : List A) : Type 0 where
  pub rest : List A
  pub split : Perm (chosen ++ rest) (select test entries)
  pub size : length chosen ≡ min limit (count test entries)
  pub ordered : IsOrdered less chosen
  pub first : Precedes less chosen rest

pub take-IsSelection :
    {A : Type 0} (less : A → A → Bool) (test : A → Bool) (entries : List A) (limit : ℕ)
    → IsOrdered less (sort_stable less entries)
    → IsSelection less test entries limit (take limit (select test (sort_stable less entries)))
take-IsSelection {A} less test entries limit h = record {
  rest = rest_of limit passing;
  split = rw (take-append-rest limit passing) (select-sort_stable-perm less test entries);
  size =
      length-take-min limit passing
      ∙ rw (length-select test sorted, count-sort_stable less test entries) refl;
  ordered = take-IsOrdered less limit passing (select-IsOrdered less test sorted h);
  first = take-Precedes less limit passing (select-IsOrdered less test sorted h);
}
  where
    sorted : List A
    sorted = sort_stable less entries

    passing : List A
    passing = select test sorted
