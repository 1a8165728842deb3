-- ===== src/Ingest/Pruning.antt =====
-- What PruneArchive of internal/ingest/replay.go does with the files of an archive.
use ridewatch.Base.{
  ℕ, ℤ, pos, ◌<◌, ◌≤ℤ◌, ◌+ℤ◌, +ℤ_parts, Text, ◌≡◌, refl, sym, ap, ◌∙◌, ◌⊎◌, inl, inr, Bool, true,
  false, not, Option, none, some, List, [], ◌∷◌, keep, length, take, In, here, there, arith,
  if-elim, Bool-cases, In-keep→, subst,
}
use ridewatch.Domain.Types.{Time}
use ridewatch.Ingest.BlobPath.{blob_path, unix, name_time}
use ridewatch.Ingest.PathTrip.{IsHex, name_time-blob_path}
use ridewatch.Ingest.Replay.{is_before, is_stale, Pruned, prune_files, prune_archive}

-- The name of a file holds a timestamp before the cutoff.
pub record IsOld (cutoff : ℤ) (f : Text) : Type 0 where
  pub time : ℕ
  pub named : name_time f ≡ some time
  pub before_cutoff : pos time +ℤ pos 1 ≤ℤ cutoff

is_stale-IsOld : (cutoff : ℤ) (f : Text) → is_stale cutoff f ≡ true → IsOld cutoff f
unfolding is_stale
is_stale-IsOld cutoff f h = timed (name_time f) refl h
  where
    timed : (o : Option ℕ) → name_time f ≡ o → is_before cutoff o ≡ true → IsOld cutoff f
    timed none e t = absurd (ground (arith, t))
    timed (some u) e t = record {
      time = u;
      named = e;
      before_cutoff = ground (arith, t, +ℤ_parts (pos u) (pos 1));
    }

not_stale :
    (cutoff : ℤ) (f : Text) (u : ℕ)
    → is_stale cutoff f ≡ false
    → name_time f ≡ some u
    → cutoff ≤ℤ pos u
unfolding is_stale
not_stale cutoff f u h e =
    let same : is_before cutoff (some u) ≡ false = ap (is_before cutoff) (sym e) ∙ h in
    ground (arith, same)

prune_files-spares :
    (stuck : Text → Bool) (cutoff : ℤ) (f : Text) (fs : List Text)
    → In f fs
    → In f (prune_files stuck cutoff fs).files ⊎ (is_stale cutoff f ≡ true)
unfolding prune_files
prune_files-spares stuck cutoff f [] h = elim h [ ]
prune_files-spares stuck cutoff f (g ∷ fs) (here e) = elim (Bool-cases (is_stale cutoff g)) [
  | inl t ↦ inr (ap (is_stale cutoff) e ∙ t)
  | inr n ↦ inl (rw n (here e))
]
prune_files-spares stuck cutoff f (g ∷ fs) (there q) =
    let rest = prune_files-spares stuck cutoff f fs q in
    if-elim (λ (r : Pruned). In f r.files ⊎ (is_stale cutoff f ≡ true)) (not (is_stale cutoff g)) _
      _ (elim rest [ inl i ↦ inl (there i) | inr t ↦ inr t ])
      (if-elim (λ (r : Pruned). In f r.files ⊎ (is_stale cutoff f ≡ true)) (stuck g) _ _
        (inl (there q)) rest)

prune_files-clears :
    (stuck : Text → Bool) (cutoff : ℤ) (fs : List Text)
    → (prune_files stuck cutoff fs).error ≡ none
    → (prune_files stuck cutoff fs).files ≡ keep (λ f. not (is_stale cutoff f)) fs
unfolding prune_files
prune_files-clears stuck cutoff [] h = refl
prune_files-clears stuck cutoff (g ∷ fs) h = ground (arith, prune_files-clears stuck cutoff fs)

module _ (stuck : Text → Bool) (older_than : Time) (paths : List Text) where
  -- A file of the walk is still there or is old.
  spared :
      (f : Text)
      → In f paths
      → In f (prune_archive stuck older_than paths).files ⊎ IsOld (unix older_than) f
  unfolding prune_archive
  spared f i = elim (prune_files-spares stuck (unix older_than) f paths i) [
    | inl j ↦ inl j
    | inr t ↦ inr (is_stale-IsOld (unix older_than) f t)
  ]

  cleared :
      (prune_archive stuck older_than paths).error ≡ none
      → (f : Text) → In f (prune_archive stuck older_than paths).files
      → In f paths × ((u : ℕ) → name_time f ≡ some u → unix older_than ≤ℤ pos u)
  unfolding prune_archive
  cleared e f i =
      let kept =
        In-keep→ (λ g. not (is_stale (unix older_than) g)) f paths
          (subst (In f) (prune_files-clears stuck (unix older_than) paths e) i) in
      (kept.0, λ u named. not_stale (unix older_than) f u (ground (arith, kept.1)) named)

  -- A file whose name holds a second from the cutoff on is still there.
  spared_young :
      (f : Text) (u : ℕ)
      → name_time f ≡ some u
      → unix older_than ≤ℤ pos u
      → In f paths
      → In f (prune_archive stuck older_than paths).files
  spared_young f u named k i = elim (spared f i) [
    | inl j ↦ j
    | inr old ↦ absurd (
        ground
          (arith, k, old.before_cutoff, +ℤ_parts (pos old.time) (pos 1), sym old.named ∙ named))
  ]

-- Whether or not PruneArchive fails, a file of the walk is still there or its name holds a
-- timestamp before the cutoff, the Unix seconds of the given instant. Where it returns no error,
-- the files that are left are files of the walk, and none of them has such a timestamp. So a blob
-- of the walk that blobPath named for an instant, from 1970 on with a second that fits an int64
-- and a hash that starts with eight lower-case hexadecimal digits, is still there if its second is
-- not before the cutoff, and only then where PruneArchive returns no error.
pub prune_archive-IsOld :
    (stuck : Text → Bool) (older_than : Time) (paths : List Text)
    → ((f : Text)
        → In f paths
        → In f (prune_archive stuck older_than paths).files ⊎ IsOld (unix older_than) f)
      × ((prune_archive stuck older_than paths).error ≡ none
          → (f : Text) → In f (prune_archive stuck older_than paths).files
          → In f paths × ((u : ℕ) → name_time f ≡ some u → unix older_than ≤ℤ pos u))
      × ((feed : Text) (t : Time) (u : ℕ) (sha : Text)
          → unix t ≡ pos u
          → u < 0x8000000000000000
          → IsHex (take 8 sha)
          → length (take 8 sha) ≡ 8
          → (unix older_than ≤ℤ pos u
              → In (blob_path feed t sha) paths
              → In (blob_path feed t sha) (prune_archive stuck older_than paths).files)
            × ((prune_archive stuck older_than paths).error ≡ none
                → In (blob_path feed t sha) (prune_archive stuck older_than paths).files
                → unix older_than ≤ℤ pos u))
prune_archive-IsOld stuck older_than paths = (
  spared stuck older_than paths,
  cleared stuck older_than paths,
  λ feed t u sha a s h l.
      let named = name_time-blob_path t u sha a s h l feed in
      (
        spared_young stuck older_than paths _ u named,
        λ e i. (cleared stuck older_than paths e _ i).1 u named,
      ),
)
