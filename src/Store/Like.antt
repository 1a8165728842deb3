-- ===== src/Store/Like.antt =====
-- likeEscape of internal/store/queries.go, against the LIKE of the database: `%` stands for any
-- text, `_` for any character, and `\` takes the next character as it is.
use ridewatch.Base.{
  ℕ, Text, is_empty, ◌≡◌, refl, ap, ◌∙◌, fun_ext, Bool, true, false, ◌&&◌, ◌||◌, Bool-cases, inl,
  inr, [], ◌∷◌, ◌++◌, ◌==◌, if◌then◌else◌, arith,
}
use ridewatch.Base.Texts.{has_prefix}

-- strings.NewReplacer of the three characters.
abbrev pub escape_code : ℕ → Text → Text
escape_code c rest = if c == b'\\' || c == b'%' || c == b'_' then b'\\' ∷ c ∷ rest else c ∷ rest

unfoldable pub like_escape : Text → Text
like_escape [] = []
like_escape (c ∷ s) = escape_code c (like_escape s)

abbrev pub one_code : ℕ → (Text → Bool) → Text → Bool
one_code c next [] = false
one_code c next (d ∷ s) = c == d && next s

abbrev pub any_code : (Text → Bool) → Text → Bool
any_code next [] = false
any_code next (d ∷ s) = next s

-- Some end of the text, the whole of it included.
abbrev pub some_end : (Text → Bool) → Text → Bool
some_end next [] = next []
some_end next (d ∷ s) = next (d ∷ s) || some_end next s

-- What the first character of a pattern asks for.
abbrev pub step_code : ℕ → (Text → Bool) → (Text → Bool) → Text → Bool
step_code c escaped next =
    if c == b'\\'
    then escaped
    else if c == b'%'
    then some_end next
    else if c == b'_'
    then any_code next
    else one_code c next

-- The text matches the pattern; the flag says that its first character is escaped.
unfoldable pub like_from : Bool → Text → Text → Bool
like_from escaped [] = is_empty
like_from true (c ∷ p) = one_code c (like_from false p)
like_from false (c ∷ p) =
    let rest = like_from false p in let taken = like_from true p in step_code c taken rest

unfoldable pub like : Text → Text → Bool
unfolding like_from
like p = like_from false p

-- The text begins with the first, and the second holds of what follows.
abbrev begins_with : Text → (Text → Bool) → Text → Bool
begins_with [] next s = next s
begins_with (c ∷ q) next s = one_code c (begins_with q next) s

step_code_plain :
    (c : ℕ) (escaped next : Text → Bool)
    → (c == b'\\' || c == b'%' || c == b'_') ≡ false
    → step_code c escaped next ≡ one_code c next
step_code_plain c escaped next h =
    let slash : (c == b'\\') ≡ false = ground arith in
    let percent : (c == b'%') ≡ false = ground arith in
    let line : (c == b'_') ≡ false = ground arith in rw (slash, percent, line) refl

like_from-like_escape :
    (q p : Text) → like_from false (like_escape q ++ p) ≡ begins_with q (like_from false p)
unfolding like_from like_escape
like_from-like_escape [] p = refl
like_from-like_escape (c ∷ q) p = elim (Bool-cases (c == b'\\' || c == b'%' || c == b'_')) [
  | inl e ↦ rw e (ap (one_code c) (like_from-like_escape q p))
  | inr e ↦ rw e (
      step_code_plain c (like_from true (like_escape q ++ p)) (like_from false (like_escape q ++ p))
        e
      ∙ ap (one_code c) (like_from-like_escape q p))
]

some_end_empty : (s : Text) → some_end is_empty s ≡ true
some_end_empty [] = refl
some_end_empty (d ∷ s) = some_end_empty s

like_percent : (s : Text) → like_from false (b'%' ∷ []) s ≡ true
unfolding like_from
like_percent s = some_end_empty s

begins_with-has_prefix :
    (q s : Text) (next : Text → Bool)
    → ((t : Text) → next t ≡ true)
    → begins_with q next s ≡ has_prefix q s
unfolding has_prefix
begins_with-has_prefix [] s next h = h s
begins_with-has_prefix (c ∷ q) [] next h = refl
begins_with-has_prefix (c ∷ q) (d ∷ s) next h = ground (arith, begins_with-has_prefix q s next h)

-- The first text stands in the second.
unfoldable pub contains : Text → Text → Bool
unfolding has_prefix
contains q s = some_end (has_prefix q) s

-- Whatever characters a text has, those that LIKE takes as wildcards or as its escape included, the
-- pattern of SearchStops made from it matches exactly the names that contain the text, and the one
-- that puts names first matches exactly those that begin with it.
pub like-like_escape :
    (q s : Text)
    → (like (b'%' ∷ (like_escape q ++ (b'%' ∷ []))) s ≡ contains q s)
      × (like (like_escape q ++ (b'%' ∷ [])) s ≡ has_prefix q s)
unfolding like contains like_from
like-like_escape q s = (ap (λ (f : Text → Bool). some_end f s) (fun_ext prefix), prefix s)
  where
    prefix : (t : Text) → like_from false (like_escape q ++ (b'%' ∷ [])) t ≡ has_prefix q t
    prefix t =
        ap (λ (f : Text → Bool). f t) (like_from-like_escape q (b'%' ∷ []))
        ∙ begins_with-has_prefix q t (like_from false (b'%' ∷ [])) like_percent
