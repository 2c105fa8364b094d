-- ===== src/Server/Routes/Apart.antt =====
-- Two patterns that no request matches both of, by a test of the patterns.
use pevo_pinner.Prelude.{
  ◌≤◌, ◌≡◌, refl, inl, inr, Bool, true, false, not, ◌&&◌, ◌||◌, none, some, List, [], ◌∷◌, ◌++◌,
  length, if◌then◌else◌, Bool-cases, Option-cases, All, arith,
}
use pevo_pinner.Prelude.Text.{Text, codes, is_empty, same, same_iff}
use pevo_pinner.Server.Routes.{
  Segment, literal, wildcard, rest, Pattern, match_path, accepts, match_pattern, takes_rest,
}

-- No path matches both.
unfoldable pub apart_paths : (ps qs : List Segment) → Bool
apart_paths [] [] = false
apart_paths [] (q ∷ qs) = true
apart_paths (p ∷ ps) [] = true
apart_paths (rest ∷ ps) (q ∷ qs) = false
apart_paths (literal s ∷ ps) (rest ∷ qs) = false
apart_paths (wildcard ∷ ps) (rest ∷ qs) = false
apart_paths (literal s ∷ ps) (literal t ∷ qs) =
    let later = apart_paths ps qs in if same s t then later else true
apart_paths (literal s ∷ ps) (wildcard ∷ qs) = apart_paths ps qs
apart_paths (wildcard ∷ ps) (literal s ∷ qs) = apart_paths ps qs
apart_paths (wildcard ∷ ps) (wildcard ∷ qs) = apart_paths ps qs

literal-some :
    (s : Text) (ps : List Segment) (x : Text) (xs ws : List Text)
    → match_path (literal s ∷ ps) (x ∷ xs) ≡ some ws
    → match_path ps xs ≡ some ws
unfolding match_path
literal-some s ps x xs ws m = elim (Bool-cases (same s x)) [
  | inl e ↦ rw (e, match_path) at m
  | inr e ↦ let gone : none ≡ some ws = rw (e, match_path) at m in cc
]

wildcard-some :
    (ps : List Segment) (x : Text) (xs ws : List Text)
    → match_path (wildcard ∷ ps) (x ∷ xs) ≡ some ws
    → (vs : List Text) × (match_path ps xs ≡ some vs)
unfolding match_path
wildcard-some ps x xs ws m = elim (Option-cases (match_path ps xs)) [
  | inr found ↦ found
  | inl e ↦ elim (Bool-cases (is_empty x)) [
    | inl f ↦ let gone : none ≡ some ws = rw (f, match_path) at m in cc
    | inr f ↦ let gone : none ≡ some ws = rw (f, match_path) at (rw (e, match_path) at m) in cc
  ]
]

literal-none :
    (s : Text) (ps : List Segment) (x : Text) (xs : List Text)
    → match_path ps xs ≡ none
    → match_path (literal s ∷ ps) (x ∷ xs) ≡ none
unfolding match_path
literal-none s ps x xs e = rw (e, match_path) (ground arith)

wildcard-none :
    (ps : List Segment) (x : Text) (xs : List Text)
    → match_path ps xs ≡ none
    → match_path (wildcard ∷ ps) (x ∷ xs) ≡ none
unfolding match_path
wildcard-none ps x xs e = rw (e, match_path) (ground arith)

apart_paths_sound :
    (ps qs : List Segment) (xs ws : List Text)
    → apart_paths ps qs ≡ true
    → match_path ps xs ≡ some ws
    → match_path qs xs ≡ none
unfolding apart_paths match_path
apart_paths_sound [] [] xs ws h m = ground arith
apart_paths_sound [] (q ∷ qs) [] ws h m = refl
apart_paths_sound [] (q ∷ qs) (x ∷ xs) ws h m = cc
apart_paths_sound (p ∷ ps) [] [] ws h m = cc
apart_paths_sound (p ∷ ps) [] (x ∷ xs) ws h m = refl
apart_paths_sound (p ∷ ps) (q ∷ qs) [] ws h m = refl
apart_paths_sound (rest ∷ ps) (q ∷ qs) (x ∷ xs) ws h m = cc
apart_paths_sound (literal s ∷ ps) (rest ∷ qs) (x ∷ xs) ws h m = cc
apart_paths_sound (wildcard ∷ ps) (rest ∷ qs) (x ∷ xs) ws h m = cc
apart_paths_sound (literal s ∷ ps) (literal t ∷ qs) (x ∷ xs) ws h m =
    ground (arith, same_iff s t, same_iff s x, same_iff t x, apart_paths_sound ps qs xs ws)
apart_paths_sound (literal s ∷ ps) (wildcard ∷ qs) (x ∷ xs) ws h m =
    wildcard-none qs x xs (apart_paths_sound ps qs xs ws h (literal-some s ps x xs ws m))
apart_paths_sound (wildcard ∷ ps) (literal s ∷ qs) (x ∷ xs) ws h m =
    let (vs, e) = wildcard-some ps x xs ws m in
    literal-none s qs x xs (apart_paths_sound ps qs xs vs h e)
apart_paths_sound (wildcard ∷ ps) (wildcard ∷ qs) (x ∷ xs) ws h m =
    let (vs, e) = wildcard-some ps x xs ws m in
    wildcard-none qs x xs (apart_paths_sound ps qs xs vs h e)

-- A longer path matches a pattern that ends in a slash as well.
pub match_path-append :
    (ps : List Segment) (xs ys ws : List Text)
    → takes_rest ps ≡ true
    → match_path ps xs ≡ some ws
    → (match_path ps (xs ++ ys) ≡ some ws) × (length ps ≤ length xs)
unfolding match_path
match_path-append [] xs ys ws h m = cc
match_path-append (p ∷ ps) [] ys ws h m = cc
match_path-append (rest ∷ []) (x ∷ xs) ys ws h m = (m, omega arith)
match_path-append (rest ∷ p ∷ ps) (x ∷ xs) ys ws h m = cc
match_path-append (literal s ∷ ps) (x ∷ xs) ys ws h m =
    let (longer, size) = match_path-append ps xs ys ws h (literal-some s ps x xs ws m) in
    (
      rw (longer, match_path) (rw (literal-some s ps x xs ws m, match_path) at m),
      omega (arith, size),
    )
match_path-append (wildcard ∷ ps) (x ∷ xs) ys ws h m =
    let (vs, e) = wildcard-some ps x xs ws m in
    let (longer, size) = match_path-append ps xs ys vs h e in
    (rw (longer, match_path) (rw (e, match_path) at m), omega (arith, size))

-- Some method is one of both patterns.
abbrev pub overlap : Pattern → Pattern → Bool
overlap p q =
    same p.method q.method
    || ((same p.method (codes "GET") && same q.method (codes "HEAD"))
        || (same p.method (codes "HEAD") && same q.method (codes "GET")))

overlap_lem :
    (p q : Pattern) (method : Text)
    → accepts p method ≡ true
    → accepts q method ≡ true
    → overlap p q ≡ true
unfolding accepts
overlap_lem p q method h k = ground (
  arith,
  h,
  k,
  same_iff p.method method,
  same_iff q.method method,
  same_iff p.method q.method,
  same_iff p.method (codes "GET"),
  same_iff q.method (codes "GET"),
  same_iff method (codes "HEAD"),
  same_iff p.method (codes "HEAD"),
  same_iff q.method (codes "HEAD"),
)

abbrev pub apart : Pattern → Pattern → Bool
apart p q = not (overlap p q) || apart_paths p.path q.path

pub apart_sound :
    (p q : Pattern) (method : Text) (path ws : List Text)
    → apart p q ≡ true
    → match_pattern p method path ≡ some ws
    → match_pattern q method path ≡ none
unfolding match_pattern
apart_sound p q method path ws h m = elim (Bool-cases (accepts p method)) [
  | inr e ↦ let gone : none ≡ some ws = rw (e, match_pattern) at m in cc
  | inl e ↦ elim (Bool-cases (accepts q method)) [
    | inr f ↦ rw (f, match_pattern) refl
    | inl f ↦
        let paths : apart_paths p.path q.path ≡ true =
          ground (arith, h, overlap_lem p q method e f) in
        rw (f, match_pattern)
          (apart_paths_sound p.path q.path path ws paths (rw (e, match_pattern) at m))
  ]
]

abbrev pub apart_behind : Pattern → List Pattern → Bool
apart_behind p [] = true
apart_behind p (q ∷ qs) = apart q p && apart_behind p qs

abbrev pub all_apart : List Pattern → Bool
all_apart [] = true
all_apart (p ∷ ps) = apart_behind p ps && all_apart ps

-- Every pattern is apart from those in front of it.
abbrev pub AllApart : List Pattern → Type 0
AllApart [] = Unit
AllApart (p ∷ ps) = All (λ q. apart q p ≡ true) ps × AllApart ps
