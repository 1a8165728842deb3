-- ===== src/GoMap.antt =====
-- Go's maps as association lists, over an interface for the equality of keys. The order of the
-- entries stands for the order in which `range` happens to visit them.
use ridewatch.Base.{
  ℕ, suc, ◌+◌, ◌≤◌, Text, text_eq, text_eq_iff, ◌≡◌, refl, ◌↔◌, Bool, true, false, Option, none,
  some, List, [], ◌∷◌, arith, if◌then◌else◌, length, ◌==◌,
}

pub record Eq {ℓ} (A : Type ℓ) : Type ℓ where
  pub beq : A → A → Bool
  pub beq_iff : (a b : A) → (beq a b ≡ true) ↔ (a ≡ b)

instance abbrev pub text_equality : Eq Text
text_equality = record { beq = text_eq; beq_iff = text_eq_iff }

unfoldable pub nat_beq : ℕ → ℕ → Bool
nat_beq a b = a == b

pub nat_beq_iff : (a b : ℕ) → (nat_beq a b ≡ true) ↔ (a ≡ b)
unfolding nat_beq
nat_beq_iff a b = ground arith

pub beq_refl {ℓ} : {K : Type ℓ} ⦃e : Eq K⦄ (k : K) → e.beq k k ≡ true
beq_refl ⦃e⦄ k = (e.beq_iff k k).1 refl

instance abbrev pub nat_equality : Eq ℕ
nat_equality = record { beq = nat_beq; beq_iff = nat_beq_iff }

abbrev pub GoMap {ℓ} : Type ℓ → Type ℓ → Type ℓ
GoMap K V = List (K × V)

module _ {ℓ} {K V : Type ℓ} ⦃e : Eq K⦄ where
  -- v, ok := m[k]
  unfoldable pub get : K → GoMap K V → Option V
  get k [] = none
  get k ((j, v) ∷ m) = if e.beq j k then some v else get k m

  -- m[k] = v
  unfoldable pub put : K → V → GoMap K V → GoMap K V
  put k v [] = (k, v) ∷ []
  put k v ((j, w) ∷ m) = if e.beq j k then (j, v) ∷ m else (j, w) ∷ put k v m

  -- delete(m, k)
  unfoldable pub delete : K → GoMap K V → GoMap K V
  delete k [] = []
  delete k ((j, w) ∷ m) = let rest = delete k m in if e.beq j k then rest else (j, w) ∷ rest

  pub get-put :
      (k j : K) (v : V) (m : GoMap K V)
      → get j (put k v m) ≡ (if e.beq k j then some v else get j m)
  unfolding get put
  get-put k j v [] = refl
  get-put k j v ((i, w) ∷ m) =
      ground (arith, e.beq_iff k j, e.beq_iff i k, e.beq_iff i j, get-put k j v m)

  pub get-put_self : (k : K) (v : V) (m : GoMap K V) → get k (put k v m) ≡ some v
  get-put_self k v m = ground (arith, get-put k k v m, beq_refl k)

  pub get-delete :
      (k j : K) (m : GoMap K V) → get j (delete k m) ≡ (if e.beq k j then none else get j m)
  unfolding get delete
  get-delete k j [] = ground arith
  get-delete k j ((i, w) ∷ m) =
      ground (arith, e.beq_iff k j, e.beq_iff i k, e.beq_iff i j, get-delete k j m)

  -- A write to a key that is there keeps the size, any other adds an entry.
  pub length-put :
      (k : K) (v : V) (m : GoMap K V)
      → length (put k v m)
        ≡ (if elim (get k m) [ none ↦ true | some _ ↦ false ] then suc (length m) else length m)
  unfolding get put
  length-put k v [] = refl
  length-put k v ((i, w) ∷ m) = ground (arith, length-put k v m)

  pub length-delete : (k : K) (m : GoMap K V) → length (delete k m) ≤ length m
  unfolding delete
  length-delete k [] = omega arith
  length-delete k ((i, w) ∷ m) = ground (arith, length-delete k m)

  pub length-delete_hit :
      (k : K) (m : GoMap K V) (v : V) → get k m ≡ some v → length (delete k m) + 1 ≤ length m
  unfolding get delete
  length-delete_hit k [] v h = ground arith
  length-delete_hit k ((i, w) ∷ m) v h = ground (arith, length-delete k m, length-delete_hit k m v)

  -- Writing what is there leaves the map as it is.
  pub put_same : (k : K) (v : V) (m : GoMap K V) → get k m ≡ some v → put k v m ≡ m
  unfolding get put
  put_same k v [] h = ground arith
  put_same k v ((j, w) ∷ m) h = ground (arith, put_same k v m)
