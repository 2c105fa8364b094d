-- ===== src/Server/Routes/Dispatch.antt =====
-- NewServer: which handler a request reaches.
use pevo_pinner.Prelude.{
  ◌≤◌, ◌≡◌, refl, inl, inr, true, false, none, some, List, [], ◌∷◌, ◌++◌, length, length-append,
  Bool-cases, Option-cases, All, All-middle, arith,
}
use pevo_pinner.Prelude.Text.{Text, same}
use pevo_pinner.Server.Routes.{
  Route, Pattern, accepts, match_pattern, find_pattern, handler_patterns, root_pattern,
  all_patterns, takes_rest, ends_in_slash, is_exact, with_slash, dispatch,
}
use pevo_pinner.Server.Routes.Apart.{
  match_path-append, apart_paths, apart_sound, apart_behind, all_apart, AllApart, apart,
}

find_pattern-middle :
    (front : List Pattern) (p : Pattern) (behind : List Pattern) (method : Text)
    (path ws : List Text)
    → AllApart (front ++ p ∷ behind)
    → match_pattern p method path ≡ some ws
    → find_pattern method path (front ++ p ∷ behind) ≡ some (p, p.route ws)
unfolding find_pattern
find_pattern-middle [] p behind method path ws d m = rw (m, find_pattern) refl
find_pattern-middle (q ∷ front) p behind method path ws (here, d) m =
    let (before, this, after) = All-middle (λ r. apart r q ≡ true) front behind here in
    rw (apart_sound p q method path ws this m, find_pattern)
      (find_pattern-middle front p behind method path ws d m)

apart_behind-All :
    (p : Pattern) (qs : List Pattern) → apart_behind p qs ≡ true → All (λ q. apart q p ≡ true) qs
apart_behind-All p [] h = tt
apart_behind-All p (q ∷ qs) h = (ground (arith, h), apart_behind-All p qs (ground (arith, h)))

all_apart_sound : (ps : List Pattern) → all_apart ps ≡ true → AllApart ps
all_apart_sound [] h = tt
all_apart_sound (p ∷ ps) h =
    (apart_behind-All p ps (ground (arith, h)), all_apart_sound ps (ground (arith, h)))

handler_patterns-AllApart : AllApart handler_patterns
unfolding handler_patterns apart_paths same
handler_patterns-AllApart = all_apart_sound handler_patterns refl

find_pattern-append :
    (ps qs : List Pattern) (method : Text) (path : List Text) (found : Pattern × Route)
    → find_pattern method path ps ≡ some found
    → find_pattern method path (ps ++ qs) ≡ some found
unfolding find_pattern
find_pattern-append [] qs method path found h = cc
find_pattern-append (p ∷ ps) qs method path found h =
    elim (Option-cases (match_pattern p method path)) [
      | inl e ↦
          rw (e, find_pattern)
            (find_pattern-append ps qs method path found (rw (e, find_pattern) at h))
      | inr (ws, e) ↦ rw (e, find_pattern) (rw (e, find_pattern) at h)
    ]

found_first :
    (front : List Pattern) (p : Pattern) (behind : List Pattern) (method : Text)
    (path ws : List Text)
    → handler_patterns ≡ front ++ p ∷ behind
    → match_pattern p method path ≡ some ws
    → find_pattern method path all_patterns ≡ some (p, p.route ws)
found_first front p behind method path ws e m =
    find_pattern-append handler_patterns (root_pattern ∷ []) method path (p, p.route ws)
      (rw e
        (find_pattern-middle front p behind method path ws (rw e at handler_patterns-AllApart) m))

match_pattern-append :
    (p : Pattern) (method : Text) (path ys ws : List Text)
    → takes_rest p.path ≡ true
    → match_pattern p method path ≡ some ws
    → (match_pattern p method (path ++ ys) ≡ some ws) × (length p.path ≤ length path)
unfolding match_pattern
match_pattern-append p method path ys ws h m = elim (Bool-cases (accepts p method)) [
  | inr e ↦ let gone : none ≡ some ws = rw (e, match_pattern) at m in cc
  | inl e ↦
      rw (e, match_pattern) (match_path-append p.path path ys ws h (rw (e, match_pattern) at m))
]

fixed-is_exact :
    (p : Pattern) (path : List Text) → takes_rest p.path ≡ false → is_exact p path ≡ true
unfolding is_exact
fixed-is_exact p path h = rw (h, is_exact) refl

longer-is_exact :
    (p : Pattern) (path : List Text)
    → takes_rest p.path ≡ true
    → length p.path ≤ length path
    → is_exact p (path ++ [] ∷ []) ≡ false
unfolding is_exact
longer-is_exact p path h size = ground (arith, h, size, length-append {0} path ([] ∷ []))

-- A path below a pattern that ends in a slash is not sent to another path.
with_slash-kept :
    (front : List Pattern) (p : Pattern) (behind : List Pattern) (method : Text)
    (path ws : List Text)
    → handler_patterns ≡ front ++ p ∷ behind
    → takes_rest p.path ≡ true
    → match_pattern p method path ≡ some ws
    → with_slash method path (p.route ws) ≡ p.route ws
unfolding with_slash
with_slash-kept front p behind method path ws e h m =
    let (longer, size) = match_pattern-append p method path ([] ∷ []) ws h m in
    elim (Bool-cases (ends_in_slash path)) [
      | inl k ↦ rw (k, with_slash) refl
      | inr k ↦
          rw (k, with_slash)
            (rw (found_first front p behind method (path ++ [] ∷ []) ws e longer, with_slash)
              (rw (longer-is_exact p path h size) refl))
    ]

-- A request that matches the method and the path of one of the registered patterns, the one for GET
-- / aside, reaches the handler of that pattern, with what its wildcards matched, wherever the
-- pattern stands among the others.
pub dispatch-match_pattern :
    (front : List Pattern) (p : Pattern) (behind : List Pattern) (method : Text)
    (path ws : List Text)
    → handler_patterns ≡ front ++ p ∷ behind
    → match_pattern p method path ≡ some ws
    → dispatch method path ≡ p.route ws
unfolding dispatch
dispatch-match_pattern front p behind method path ws e m =
    let found = found_first front p behind method path ws e m in
    rw (found, dispatch)
      (elim (Bool-cases (is_exact p path)) [
        | inl f ↦ rw f refl
        | inr f ↦ elim (Bool-cases (takes_rest p.path)) [
          | inr g ↦ let exact = fixed-is_exact p path g in absurd (cc (exact, f))
          | inl g ↦ rw f (with_slash-kept front p behind method path ws e g m)
        ]
      ])
