-- ===== src/Cmd/OnceADay.antt =====
-- A daily latch as in startNightly of cmd/ridewatch/main.go: work is begun at most once a day, and
-- on each day on which it is due.
use ridewatch.Base.{
  ℤ, eqb_ℤ_iff, ltb_ℤ, ◌≡◌, sym, ap, ◌∙◌, Bool, true, false, not, ◌&&◌, ◌⊎◌, inl, inr, Option, none,
  some, List, [], ◌∷◌, All, All-weaken, In, here, there, arith, if◌then◌else◌, ◌↔◌, if-split,
}
use ridewatch.Cmd.Nightly.{is_day}

-- The days on which work is begun, from the days of the ticks and whether it is due at them.
unfoldable pub fires : List (ℤ × Bool) → Option ℤ → List ℤ
fires [] o = []
fires ((d, due) ∷ ts) o =
    let again = fires ts o in
    let first = fires ts (some d) in if due && not (is_day o d) then d ∷ first else again

-- The clock does not go back to an earlier day.
abbrev pub InOrder : List (ℤ × Bool) → Type 0
InOrder [] = Unit
InOrder ((d, due) ∷ ts) = All (λ ((e, b) : ℤ × Bool). ltb_ℤ e d ≡ false) ts × InOrder ts

abbrev pub Ascending : List ℤ → Type 0
Ascending [] = Unit
Ascending (d ∷ ds) = All (λ e. ltb_ℤ d e ≡ true) ds × Ascending ds

abbrev NotBefore : Option ℤ → List (ℤ × Bool) → Type 0
NotBefore none ts = Unit
NotBefore (some d) ts = All (λ ((e, b) : ℤ × Bool). ltb_ℤ e d ≡ false) ts

abbrev Above : Option ℤ → List ℤ → Type 0
Above none ds = Unit
Above (some d) ds = All (λ e. ltb_ℤ d e ≡ true) ds

tail_NotBefore :
    (o : Option ℤ) (d : ℤ) (due : Bool) (ts : List (ℤ × Bool))
    → NotBefore o ((d, due) ∷ ts)
    → NotBefore o ts
tail_NotBefore none d due ts h = tt
tail_NotBefore (some e) d due ts (h, hs) = hs

Above-day :
    (o : Option ℤ) (d : ℤ) (due : Bool) (ts : List (ℤ × Bool)) (ds : List ℤ)
    → NotBefore o ((d, due) ∷ ts)
    → is_day o d ≡ false
    → All (λ e. ltb_ℤ d e ≡ true) ds
    → Above o (d ∷ ds)
Above-day none d due ts ds h n a = tt
Above-day (some e) d due ts ds (h, hs) n a =
    (ground (arith, h, n, eqb_ℤ_iff e d), All-weaken _ _ ds (λ f k. ground (arith, h, k)) a)

fires-Ascending :
    (ts : List (ℤ × Bool)) (o : Option ℤ)
    → InOrder ts
    → NotBefore o ts
    → Above o (fires ts o) × Ascending (fires ts o)
unfolding fires
fires-Ascending [] none i n = (tt, tt)
fires-Ascending [] (some e) i n = (tt, tt)
fires-Ascending ((d, due) ∷ ts) o (i, is) n =
    let first = fires-Ascending ts (some d) is i in
    if-split (λ (ds : List ℤ). Above o ds × Ascending ds) (due && not (is_day o d))
      (d ∷ fires ts (some d)) (fires ts o)
      (λ e. (Above-day o d due ts _ n (ground arith) first.0, first))
      (λ e. fires-Ascending ts o is (tail_NotBefore o d due ts n))

In-fires→ : (ts : List (ℤ × Bool)) (o : Option ℤ) (d : ℤ) → In d (fires ts o) → In (d, true) ts
unfolding fires
In-fires→ [] o d h = elim h [ ]
In-fires→ ((e, due) ∷ ts) o d h =
    if-split (λ (ds : List ℤ). In d ds → In (d, true) ((e, due) ∷ ts)) (due && not (is_day o e))
      (e ∷ fires ts (some e)) (fires ts o)
      (λ t i. begun (ground arith) (λ j. In-fires→ ts (some e) d j) i)
      (λ t i. there (In-fires→ ts o d i)) h
  where
    begun :
        due ≡ true
        → (In d (fires ts (some e)) → In (d, true) ts)
        → In d (e ∷ fires ts (some e))
        → In (d, true) ((e, due) ∷ ts)
    begun t rest (here q) = here (λ i. (q i, sym t i))
    begun t rest (there i) = there (rest i)

In-fires← :
    (ts : List (ℤ × Bool)) (o : Option ℤ) (d : ℤ)
    → In (d, true) ts
    → In d (fires ts o) ⊎ (is_day o d ≡ true)
unfolding fires
In-fires← [] o d h = elim h [ ]
In-fires← ((e, due) ∷ ts) o d h =
    if-split (λ (ds : List ℤ). In d ds ⊎ (is_day o d ≡ true)) (due && not (is_day o e))
      (e ∷ fires ts (some e)) (fires ts o) (λ t. begun h (In-fires← ts (some e) d))
      (λ t. passed t h (In-fires← ts o d))
  where
    begun :
        In (d, true) ((e, due) ∷ ts)
        → (In (d, true) ts → In d (fires ts (some e)) ⊎ (is_day (some e) d ≡ true))
        → In d (e ∷ fires ts (some e)) ⊎ (is_day o d ≡ true)
    begun (here q) rest = inl (here (ap (λ (p : ℤ × Bool). p.0) q))
    begun (there i) rest = elim (rest i) [
      | inl j ↦ inl (there j)
      | inr j ↦ inl (here (sym ((eqb_ℤ_iff e d).0 j)))
    ]

    passed :
        (due && not (is_day o e)) ≡ false
        → In (d, true) ((e, due) ∷ ts)
        → (In (d, true) ts → In d (fires ts o) ⊎ (is_day o d ≡ true))
        → In d (fires ts o) ⊎ (is_day o d ≡ true)
    passed t (here q) rest =
        let day : d ≡ e = ap (λ (p : ℤ × Bool). p.0) q in
        let now : true ≡ due = ap (λ (p : ℤ × Bool). p.1) q in
        let latched : is_day o e ≡ true = ground (arith, t, now) in
        inr (ap (is_day o) day ∙ latched)
    passed t (there i) rest = rest i

-- Work begun at most once a day, on the days on which it is due.
abbrev pub OnceOn : List (ℤ × Bool) → List ℤ → Type 0
OnceOn ts ds = Ascending ds × ((d : ℤ) → In d ds ↔ In (d, true) ts)

pub fires-OnceOn : (ts : List (ℤ × Bool)) → InOrder ts → OnceOn ts (fires ts none)
fires-OnceOn ts i = (
  (fires-Ascending ts none i tt).1,
  λ d. (
    In-fires→ ts none d,
    λ j. elim (In-fires← ts none d j) [ inl k ↦ k | inr k ↦ absurd (ground arith) ],
  ),
)
