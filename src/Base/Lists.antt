-- ===== src/Base/Lists.antt =====
-- Lists measured and indexed by native numbers, predicates on lists, and filters by a test.
use Prim.Native.Nat.{ℕ, zero, suc, ◌+◌, ◌≤◌}
use mathlib.Core.Path.{◌≡◌, refl, ap, sym, ◌∙◌}
use mathlib.Core.Logic.{◌⊎◌, inl, inr}
use mathlib.Core.Bool.{Bool, true, false, ◌||◌}
use mathlib.Core.List.{List, [], ◌∷◌, ◌++◌, map}
use mathlib.Core.Option.{Option, none, some}
use native.Mathlib.Omega.{arith}
use ridewatch.Base.Tests.{if◌then◌else◌, if-elim}

module _ {ℓ} {A : Type ℓ} where
  abbrev pub length : List A → ℕ
  length [] = 0
  length (x ∷ xs) = suc (length xs)

  abbrev pub get_elem? : List A → ℕ → Option A
  get_elem? [] i = none
  get_elem? (x ∷ xs) zero = some x
  get_elem? (x ∷ xs) (suc i) = get_elem? xs i

  abbrev pub take : ℕ → List A → List A
  take zero xs = []
  take (suc n) [] = []
  take (suc n) (x ∷ xs) = x ∷ take n xs

  abbrev pub drop : ℕ → List A → List A
  drop zero xs = xs
  drop (suc n) [] = []
  drop (suc n) (x ∷ xs) = drop n xs

  pub length-append : (xs ys : List A) → length (xs ++ ys) ≡ length xs + length ys
  length-append [] ys = omega arith
  length-append (x ∷ xs) ys = omega (arith, length-append xs ys)

  -- The entries that pass a test, in their order.
  abbrev pub keep : (A → Bool) → List A → List A
  keep p [] = []
  keep p (x ∷ xs) = let rest = keep p xs in if p x then x ∷ rest else rest

  -- Some entry passes the test.
  abbrev pub some_entry : (A → Bool) → List A → Bool
  some_entry p [] = false
  some_entry p (x ∷ xs) = p x || some_entry p xs

-- Every entry satisfies the predicate.
abbrev pub All {ℓ κ} : {A : Type ℓ} → (A → Type κ) → List A → Type κ
All P [] = Unit
All P (x ∷ xs) = P x × All P xs

module _ {ℓ κ} {A : Type ℓ} (P : A → Type κ) where
  pub All-append : (xs ys : List A) → All P xs → All P ys → All P (xs ++ ys)
  All-append [] ys hx hy = hy
  All-append (x ∷ xs) ys hx hy = (hx.0, All-append xs ys hx.1 hy)

pub All-keep {ℓ κ} :
    {A : Type ℓ} (P : A → Type κ) (p : A → Bool) (xs : List A) → All P xs → All P (keep p xs)
All-keep P p [] h = tt
All-keep P p (x ∷ xs) h =
    if-elim (All P) (p x) (x ∷ keep p xs) (keep p xs) (h.0, All-keep P p xs h.1)
      (All-keep P p xs h.1)

-- A predicate that follows from another, at each entry's image.
pub All-map {ℓ κ μ} :
    {A : Type ℓ} {B : Type κ} (P : A → Type μ) (Q : B → Type μ) (f : A → B) (xs : List A)
    → ((x : A) → P x → Q (f x))
    → All P xs
    → All Q (map f xs)
All-map P Q f [] i h = tt
All-map P Q f (x ∷ xs) i h = (i x h.0, All-map P Q f xs i h.1)

pub All-weaken {ℓ κ} :
    {A : Type ℓ} (P Q : A → Type κ) (xs : List A) → ((x : A) → P x → Q x) → All P xs → All Q xs
All-weaken P Q [] i h = tt
All-weaken P Q (x ∷ xs) i h = (i x h.0, All-weaken P Q xs i h.1)

-- x is an entry of the list.
pub data In {ℓ} {A : Type ℓ} (x : A) : List A → Type ℓ where
  here : {y : A} {ys : List A} → x ≡ y → In x (y ∷ ys)
  there : {y : A} {ys : List A} → In x ys → In x (y ∷ ys)

In-if→ {ℓ} :
    {A : Type ℓ} (b : Bool) (x y : A) (ys : List A)
    → In x (if b then y ∷ ys else ys)
    → ((x ≡ y) × (b ≡ true)) ⊎ In x ys
In-if→ true x y ys (here e) = inl (e, refl)
In-if→ true x y ys (there q) = inr q
In-if→ false x y ys h = inr h

In-if_tail {ℓ} :
    {A : Type ℓ} (b : Bool) (x y : A) (ys : List A) → In x ys → In x (if b then y ∷ ys else ys)
In-if_tail true x y ys h = there h
In-if_tail false x y ys h = h

module _ {ℓ} {A : Type ℓ} (p : A → Bool) (x : A) where
  -- What a filter keeps is in the list and passes the test.
  pub In-keep→ : (xs : List A) → In x (keep p xs) → In x xs × (p x ≡ true)
  In-keep→ [] h = elim h [ ]
  In-keep→ (y ∷ ys) h = elim (In-if→ (p y) x y (keep p ys) h) [
    | inl (e, t) ↦ (here e, ap p e ∙ t)
    | inr q ↦ (there (In-keep→ ys q).0, (In-keep→ ys q).1)
  ]

  -- What is in the list and passes the test is kept.
  pub In-keep← : (xs : List A) → In x xs → p x ≡ true → In x (keep p xs)
  In-keep← [] h t = elim h [ ]
  In-keep← (y ∷ ys) (here e) t = rw (ap p (sym e) ∙ t) (here e)
  In-keep← (y ∷ ys) (there q) t = In-if_tail (p y) x y (keep p ys) (In-keep← ys q t)

module _ {ℓ κ} {A : Type ℓ} {B : Type κ} (f : A → B) where
  pub In-map→ : (y : B) (xs : List A) → In y (map f xs) → (x : A) × In x xs × (y ≡ f x)
  In-map→ y [] h = elim h [ ]
  In-map→ y (x ∷ xs) (here e) = (x, here refl, e)
  In-map→ y (x ∷ xs) (there q) = let (x', i, e) = In-map→ y xs q in (x', there i, e)

  pub In-map← : (x : A) (xs : List A) → In x xs → In (f x) (map f xs)
  In-map← x [] h = elim h [ ]
  In-map← x (y ∷ ys) (here e) = here (ap f e)
  In-map← x (y ∷ ys) (there q) = there (In-map← x ys q)

module _ {ℓ} {A : Type ℓ} where
  pub In-take→ : (n : ℕ) (xs : List A) (x : A) → In x (take n xs) → In x xs
  In-take→ zero xs x h = elim h [ ]
  In-take→ (suc n) [] x h = elim h [ ]
  In-take→ (suc n) (y ∷ ys) x (here e) = here e
  In-take→ (suc n) (y ∷ ys) x (there q) = there (In-take→ n ys x q)

  pub length-take-le : (n : ℕ) (xs : List A) → length (take n xs) ≤ n
  length-take-le zero xs = omega arith
  length-take-le (suc n) [] = omega arith
  length-take-le (suc n) (x ∷ xs) = omega (arith, length-take-le n xs)
