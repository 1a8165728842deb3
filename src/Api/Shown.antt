-- ===== src/Api/Shown.antt =====
-- Which departures the sentences of internal/api/sentences.go speak of.
use ridewatch.Base.{
  In-take→, ◌≤ℤ◌, pos, ℕ, zero, suc, ◌≤◌, ◌≡◌, refl, ◌⊎◌, inl, inr, Bool, true, false, List, [],
  ◌∷◌, map, take, keep, length, length-append, All, In, here, there, In-keep→, In-keep←, arith,
  Text, if-elim, ltb,
}
use ridewatch.Base.Sorting.{Sorted, IsOrder, sort_by, Sorted-sort_by, In-sort_by→, In-sort_by←}
use ridewatch.GoMap.{GoMap}
use ridewatch.Api.Sentences.{
  DepartureStat, HourlyStat, Float64, worse, eligible, shown_departures, departure_sentence, tally,
  overall_sentence, reliability_sentences,
}

worse-asym : (x y : DepartureStat) → worse x y ≡ true → worse y x ≡ false
unfolding worse
worse-asym x y h = ground arith

worse-negtrans : (x y z : DepartureStat) → worse y x ≡ false → worse z y ≡ false → worse z x ≡ false
unfolding worse
worse-negtrans x y z h k = ground arith

worse-IsOrder : IsOrder worse
worse-IsOrder = record { asym = worse-asym; negtrans = worse-negtrans }

module _ {ℓ} {A : Type ℓ} where
  length-take : (n : ℕ) (xs : List A) → length (take n xs) ≤ n
  length-take zero xs = omega arith
  length-take (suc n) [] = omega arith
  length-take (suc n) (x ∷ xs) = omega (arith, length-take n xs)

  All-In : (P : A → Type 0) (xs : List A) (x : A) → All P xs → In x xs → P x
  All-In P [] x h i = elim i [ ]
  All-In P (y ∷ ys) x h (here e) = rw e h.0
  All-In P (y ∷ ys) x h (there q) = All-In P ys x h.1 q

  -- In a sorted list, what is not among the first n is not less than any of these.
  take-Sorted :
      (less : A → A → Bool) (n : ℕ) (xs : List A) (x y : A)
      → Sorted less xs
      → In x (take n xs)
      → In y xs
      → In y (take n xs) ⊎ (less y x ≡ false)
  take-Sorted less zero xs x y s i j = elim i [ ]
  take-Sorted less (suc n) [] x y s i j = elim i [ ]
  take-Sorted less (suc n) (z ∷ zs) x y s i (here e) = inl (here e)
  take-Sorted less (suc n) (z ∷ zs) x y s (here d) (there q) =
      inr (rw d (All-In (λ w. less w z ≡ false) zs y s.0 q))
  take-Sorted less (suc n) (z ∷ zs) x y s (there p) (there q) =
      elim (take-Sorted less n zs x y s.1 p q) [ inl i ↦ inl (there i) | inr f ↦ inr f ]

-- The first is late no more often than the second; where they are late equally often it has no more
-- observations, and where these are equal too it is scheduled no earlier.
pub record NoWorse (e d : DepartureStat) : Type 0 where
  pub late : e.late5_pct ≤ d.late5_pct
  pub observed : e.late5_pct ≡ d.late5_pct → e.n ≤ℤ d.n
  pub scheduled : e.late5_pct ≡ d.late5_pct → e.n ≡ d.n → d.scheduled_secs ≤ℤ e.scheduled_secs

worse-NoWorse : (e d : DepartureStat) → worse e d ≡ false → NoWorse e d
unfolding worse
worse-NoWorse e d h = record {
  late = ground (arith, h);
  observed = λ q. ground (arith, h, q);
  scheduled = λ q r. ground (arith, h, q, r);
}

eligible→ : (d : DepartureStat) → eligible d ≡ true → pos 10 ≤ℤ d.n
unfolding eligible
eligible→ d h = ground (arith, h)

eligible← : (d : DepartureStat) → pos 10 ≤ℤ d.n → eligible d ≡ true
unfolding eligible
eligible← d h = ground (arith, h)

-- A shown departure is one of the rows and has ten observations or more; a row with that many
-- observations that is not shown is no worse than any that is: it is late no more often, where
-- equally often it has no more observations, and where these are equal too it is scheduled no
-- earlier.
pub shown_departures-NoWorse :
    (departures : List DepartureStat) (d : DepartureStat)
    → In d (shown_departures departures)
    → In d departures
      × (pos 10 ≤ℤ d.n)
      × ((e : DepartureStat)
          → In e departures
          → pos 10 ≤ℤ e.n
          → In e (shown_departures departures) ⊎ NoWorse e d)
unfolding shown_departures
shown_departures-NoWorse departures d i =
    let rows = keep eligible departures in
    let kept =
      In-keep→ eligible d departures
        (In-sort_by→ worse d rows (In-take→ 5 (sort_by worse rows) d i)) in
    (
      kept.0,
      eligible→ d kept.1,
      λ e j o.
          elim (take-Sorted worse 5 (sort_by worse rows) d e
            (Sorted-sort_by worse worse-IsOrder rows) i
            (In-sort_by← worse e rows (In-keep← eligible e departures j (eligible← e o)))) [
              | inl k ↦ inl k
              | inr k ↦ inr (worse-NoWorse e d k)
            ],
    )

length-map {ℓ κ} :
    {A : Type ℓ} {B : Type κ} (f : A → B) (xs : List A) → length (map f xs) ≡ length xs
length-map f [] = refl
length-map f (x ∷ xs) = omega (arith, length-map f xs)

length-overall_sentence : (p : ℕ × Float64) → length (overall_sentence p) ≤ 1
unfolding overall_sentence
length-overall_sentence (n, weighted) =
    if-elim (λ (s : List Text). length s ≤ 1) (ltb 0 n) _ _ (omega arith) (omega arith)

-- There are at most six sentences, whatever the rollups hold.
pub length-reliability_sentences :
    (hourly : List HourlyStat) (departures : List DepartureStat) (names : GoMap Text Text)
    → length (reliability_sentences hourly departures names) ≤ 6
unfolding reliability_sentences shown_departures
length-reliability_sentences hourly departures names = omega (
  arith,
  length-append (map (departure_sentence names) (shown_departures departures))
      (overall_sentence (tally hourly 0 0)),
  length-map (departure_sentence names) (shown_departures departures),
  length-take 5 (sort_by worse (keep eligible departures)),
  length-overall_sentence (tally hourly 0 0),
)
