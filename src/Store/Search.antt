-- ===== src/Store/Search.antt =====
-- internal/store/queries.go: SearchStops and RoutesServingStop. lower() of the database, the
-- lower case of Go and the order of texts in the database are parameters.
use ridewatch.Base.{
  ℕ, ℤ, pos, eqb_ℤ, ltb_ℤ, Text, text_eq, ◌≡◌, ◌≤◌, refl, Bool, true, false, not, ◌&&◌, ◌||◌,
  Option, List, [], ◌∷◌, ◌++◌, keep, take, In, In-keep→, In-take→, length-take-le, sym, ◌∙◌, none,
  some, subst, if◌then◌else◌, Outcome, ok, Err, length, arith, ◌⊎◌, inl, inr,
}
use ridewatch.Base.Sorting.{sort_by, In-sort_by→}
use ridewatch.Base.Texts.{trim_space}
use ridewatch.Domain.Static.{Stop}
use ridewatch.Store.Versions.{Db}
use ridewatch.Store.Reads.{queried, of_active, active_version_id, version_stops}
use ridewatch.Store.Like.{like, like_escape, contains, like-like_escape}

pub record Texts : Type 0 where
  pub lower : Text → Text
  pub to_lower : Text → Text
  pub text_less : Text → Text → Bool

module _ (x : Texts) where
  unfoldable pub needle : Text → Text
  needle q = like_escape (x.to_lower (trim_space q))

  -- WHERE location_type <= 1 AND (lower(name) LIKE '%' || $2 || '%' OR stop_id = $3)
  unfoldable pub searched : Text → Text → Stop → Bool
  searched pattern q s =
      not (ltb_ℤ (pos 1) s.location_type)
      && (like (b'%' ∷ (pattern ++ (b'%' ∷ []))) (x.lower s.name) || text_eq s.stop_id q)

  abbrev pub rank : Text → Stop → Bool
  rank pattern s = like (pattern ++ (b'%' ∷ [])) (x.lower s.name)

  -- ORDER BY: the rank of a prefix first, then location_type DESC, name, stop_id.
  unfoldable pub listed_before : Text → Stop → Stop → Bool
  listed_before pattern s t =
      if not (rank pattern s) && rank pattern t
      then false
      else if rank pattern s && not (rank pattern t)
      then true
      else if not (eqb_ℤ s.location_type t.location_type)
      then ltb_ℤ t.location_type s.location_type
      else if not (text_eq s.name t.name)
      then x.text_less s.name t.name
      else x.text_less s.stop_id t.stop_id

  unfoldable pub search_rows : Text → Text → ℕ → List Stop → List Stop
  unfolding searched listed_before
  search_rows pattern q limit stops =
      take limit (sort_by (listed_before pattern) (keep (searched pattern q) stops))

  -- Store.SearchStops
  unfoldable pub search_stops : Option Err → Option Err → Text → ℕ → Db → Outcome (List Stop)
  unfolding search_rows needle
  search_stops version_fault fault q limit db =
      of_active (active_version_id version_fault db)
        (λ id. queried fault (ok (search_rows (needle q) q limit (version_stops id db))))

  -- What the condition of the query says of a stop.
  abbrev pub IsFound : Text → Stop → Type 0
  IsFound q s =
      (ltb_ℤ (pos 1) s.location_type ≡ false)
      × ((contains (x.to_lower (trim_space q)) (x.lower s.name) ≡ true)
          ⊎ (text_eq s.stop_id q ≡ true))

  searched-IsFound : (q : Text) (s : Stop) → searched (needle q) q s ≡ true → IsFound q s
  unfolding searched needle
  searched-IsFound q s h =
      let literal = (like-like_escape (x.to_lower (trim_space q)) (x.lower s.name)).0 in
      (ground arith, either (text_eq s.stop_id q) refl literal)
    where
      pattern : Bool
      pattern =
          like (b'%' ∷ (like_escape (x.to_lower (trim_space q)) ++ (b'%' ∷ []))) (x.lower s.name)

      either :
          (b : Bool)
          → text_eq s.stop_id q ≡ b
          → pattern ≡ contains (x.to_lower (trim_space q)) (x.lower s.name)
          → (contains (x.to_lower (trim_space q)) (x.lower s.name) ≡ true)
            ⊎ (text_eq s.stop_id q ≡ true)
      either true e l = inr e
      either false e l = inl (sym l ∙ ground (arith, h, e))

  -- With an active version SearchStops lists no more stops than the limit, each of them a stop of
  -- that version and no entrance or generic node, whose name contains the trimmed query literally,
  -- both in lower case, or whose id is the query.
  pub search_stops-IsFound :
      (version_fault fault : Option Err) (q : Text) (limit : ℕ) (db : Db) (id : ℤ)
      (stops : List Stop)
      → active_version_id version_fault db ≡ ok id
      → search_stops version_fault fault q limit db ≡ ok stops
      → (length stops ≤ limit)
        × ((s : Stop) → In s stops → In s (version_stops id db) × IsFound q s)
  unfolding search_stops search_rows
  search_stops-IsFound version_fault fault q limit db id stops a h = found fault (rw a at h)
    where
      rows : List Stop
      rows = keep (searched (needle q) q) (version_stops id db)

      sorted : List Stop
      sorted = sort_by (listed_before (needle q)) rows

      row :
          (s : Stop)
          → In s (version_stops id db) × (searched (needle q) q s ≡ true)
          → In s (version_stops id db) × IsFound q s
      row s (i, t) = (i, searched-IsFound q s t)

      found :
          (o : Option Err)
          → queried o (ok (search_rows (needle q) q limit (version_stops id db))) ≡ ok stops
          → (length stops ≤ limit)
            × ((s : Stop) → In s stops → In s (version_stops id db) × IsFound q s)
      found (some e) g = absurd (ground arith)
      found none g =
          let same : search_rows (needle q) q limit (version_stops id db) ≡ stops = cc in
          subst
            (λ (l : List Stop).
              (length l ≤ limit) × ((s : Stop) → In s l → In s (version_stops id db) × IsFound q s))
            same
            (
              length-take-le limit sorted,
              λ s i. row s (
                  In-keep→ (searched (needle q) q) s (version_stops id db)
                    (In-sort_by→ (listed_before (needle q)) s rows (In-take→ limit sorted s i))),
            )
