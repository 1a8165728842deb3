-- ===== src/Base/Sorting.antt =====
-- Sorting by a Boolean `less`, for Go's sort.Slice and slices.SortFunc: the result is sorted and
-- has the same entries. Entries that `less` does not tell apart keep the order in which they stand,
-- as sort.SliceStable promises and sort.Slice may do.
use mathlib.Core.Path.{◌≡◌}
use mathlib.Core.Bool.{Bool, true, false}
use mathlib.Core.List.{List, [], ◌∷◌, Perm}
use mathlib.Core.List.Perm
use mathlib.Core.Logic.{inl, inr}
use ridewatch.Base.Tests.{if◌then◌else◌, if-elim, Bool-cases}
use ridewatch.Base.Lists.{All, All-weaken, In, here, there}

module _ {ℓ} {A : Type ℓ} (z x : A) where
  -- Membership through a change of the tail.
  again : (xs ys : List A) → (In z xs → In z ys) → In z (x ∷ xs) → In z (x ∷ ys)
  again xs ys f (here e) = here e
  again xs ys f (there q) = there (f q)

module _ {ℓ} {A : Type ℓ} (z x y : A) (ys : List A) {l : List A} where
  swapped : (In z l → In z (x ∷ ys)) → In z (y ∷ l) → In z (x ∷ y ∷ ys)
  swapped f (here e) = there (here e)
  swapped f (there q) = again z x ys (y ∷ ys) there (f q)

  back : (In z (x ∷ ys) → In z l) → In z (x ∷ y ∷ ys) → In z (y ∷ l)
  back f (here e) = there (f (here e))
  back f (there (here e)) = here e
  back f (there (there q)) = there (f (there q))

module _ {ℓ} {A : Type ℓ} (less : A → A → Bool) where
  unfoldable pub insert_by : A → List A → List A
  insert_by x [] = x ∷ []
  insert_by x (y ∷ ys) = let rest = insert_by x ys in if less y x then y ∷ rest else x ∷ y ∷ ys

  unfoldable pub sort_by : List A → List A
  unfolding insert_by
  sort_by [] = []
  sort_by (x ∷ xs) = insert_by x (sort_by xs)

  -- No later entry is less than an earlier one.
  abbrev pub Sorted : List A → Type ℓ
  Sorted [] = Unit
  Sorted (x ∷ xs) = All (λ y. less y x ≡ false) xs × Sorted xs

  -- The laws of a strict weak order that sorting rests on.
  pub record IsOrder : Type ℓ where
    pub asym : (x y : A) → less x y ≡ true → less y x ≡ false
    pub negtrans : (x y z : A) → less y x ≡ false → less z y ≡ false → less z x ≡ false

  perm-insert_by : (x : A) (xs : List A) → Perm (insert_by x xs) (x ∷ xs)
  unfolding insert_by
  perm-insert_by x [] = Perm.refl (x ∷ [])
  perm-insert_by x (y ∷ ys) = elim (Bool-cases (less y x)) [
    | inl e ↦ rw e (Perm.trans (Perm.cons y (perm-insert_by x ys)) (Perm.swap x y ys))
    | inr e ↦ rw e (Perm.refl (x ∷ y ∷ ys))
  ]

  pub perm-sort_by : (xs : List A) → Perm (sort_by xs) xs
  unfolding sort_by
  perm-sort_by [] = Perm.refl []
  perm-sort_by (x ∷ xs) = Perm.trans (perm-insert_by x (sort_by xs)) (Perm.cons x (perm-sort_by xs))

  All-insert_by : (P : A → Type 0) (x : A) (xs : List A) → P x → All P xs → All P (insert_by x xs)
  unfolding insert_by
  All-insert_by P x [] h hs = (h, hs)
  All-insert_by P x (y ∷ ys) h hs =
      if-elim (All P) (less y x) (y ∷ insert_by x ys) (x ∷ y ∷ ys)
        (hs.0, All-insert_by P x ys h hs.1) (h, hs)

  All-not_less :
      (o : IsOrder) (x y : A) (ys : List A)
      → less y x ≡ false
      → All (λ z. less z y ≡ false) ys
      → All (λ z. less z x ≡ false) ys
  All-not_less o x y [] h hs = tt
  All-not_less o x y (z ∷ zs) h hs = (o.negtrans x y z h hs.0, All-not_less o x y zs h hs.1)

  Sorted-insert_by : (o : IsOrder) (x : A) (xs : List A) → Sorted xs → Sorted (insert_by x xs)
  unfolding insert_by
  Sorted-insert_by o x [] h = (tt, tt)
  Sorted-insert_by o x (y ∷ ys) h = elim (Bool-cases (less y x)) [
    | inl e ↦
        rw e (
          All-insert_by (λ z. less z y ≡ false) x ys (o.asym y x e) h.0,
          Sorted-insert_by o x ys h.1,
        )
    | inr e ↦ rw e ((e, All-not_less o x y ys e h.0), h)
  ]

  pub Sorted-sort_by : (o : IsOrder) (xs : List A) → Sorted (sort_by xs)
  unfolding sort_by
  Sorted-sort_by o [] = tt
  Sorted-sort_by o (x ∷ xs) = Sorted-insert_by o x (sort_by xs) (Sorted-sort_by o xs)

  In-insert_by→ : (z x : A) (xs : List A) → In z (insert_by x xs) → In z (x ∷ xs)
  unfolding insert_by
  In-insert_by→ z x [] h = h
  In-insert_by→ z x (y ∷ ys) h = elim (Bool-cases (less y x)) [
    | inl e ↦ swapped z x y ys (In-insert_by→ z x ys) (rw (e, insert_by) at h)
    | inr e ↦ rw (e, insert_by) at h
  ]

  pub In-sort_by→ : (z : A) (xs : List A) → In z (sort_by xs) → In z xs
  unfolding sort_by
  In-sort_by→ z [] h = h
  In-sort_by→ z (x ∷ xs) h =
      again z x (sort_by xs) xs (In-sort_by→ z xs) (In-insert_by→ z x (sort_by xs) h)

  In-insert_by← : (z x : A) (xs : List A) → In z (x ∷ xs) → In z (insert_by x xs)
  unfolding insert_by
  In-insert_by← z x [] h = h
  In-insert_by← z x (y ∷ ys) h = elim (Bool-cases (less y x)) [
    | inl e ↦ rw e (back z x y ys (In-insert_by← z x ys) h)
    | inr e ↦ rw e h
  ]

  pub In-sort_by← : (z : A) (xs : List A) → In z xs → In z (sort_by xs)
  unfolding sort_by
  In-sort_by← z [] h = h
  In-sort_by← z (x ∷ xs) h =
      In-insert_by← z x (sort_by xs) (again z x xs (sort_by xs) (In-sort_by← z xs) h)

-- Every entry is related to each that stands after it.
abbrev pub Pairwise {ℓ} : {A : Type ℓ} → (A → A → Type 0) → List A → Type 0
Pairwise R [] = Unit
Pairwise R (x ∷ xs) = All (R x) xs × Pairwise R xs

pub Pairwise-Sorted :
    {A : Type 0} (less : A → A → Bool) (R : A → A → Type 0) (xs : List A)
    → ((x y : A) → less y x ≡ false → R x y)
    → Sorted less xs
    → Pairwise R xs
Pairwise-Sorted less R [] i s = tt
Pairwise-Sorted less R (x ∷ xs) i s = (All-weaken _ _ xs (i x) s.0, Pairwise-Sorted less R xs i s.1)
