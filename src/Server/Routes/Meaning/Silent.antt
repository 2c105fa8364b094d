-- ===== src/Server/Routes/Meaning/Silent.antt =====
-- NewServer: every other request reaches a handler that leaves the rules.
use pevo_pinner.Prelude.{
  ◌≡◌, refl, sym, inl, inr, false, some, List, [], ◌∷◌, ◌++◌, Bool-cases, Option-cases, All, arith,
}
use pevo_pinner.Prelude.Text.{Text, codes, same, same_iff}
use pevo_pinner.Server.Routes.{
  wildcard, fixed, with_value, autopin_path, rules_path, Route, Pattern, match_path, accepts,
  match_pattern, find_pattern, handler_patterns, all_patterns, is_exact, ends_in_slash, some_path,
  with_slash, dispatch,
}
use pevo_pinner.Server.Routes.Meaning.{
  no_change, puts, deletes, id_of, posts, change_of_id, change_of,
}
use pevo_pinner.Server.Routes.Meaning.Paths.{match_path-same_path, match_path-id_of}

-- A pattern is silent on a request if its handler, when the request matches, leaves the rules.
abbrev pub IsSilent : (method : Text) (path : List Text) → Pattern → Type 0
IsSilent method path p =
    (ws : List Text) → match_pattern p method path ≡ some ws → change_of (p.route ws) ≡ no_change

find_pattern-silent :
    (method : Text) (path : List Text) (ps : List Pattern) (p : Pattern) (r : Route)
    → All (IsSilent method path) ps
    → find_pattern method path ps ≡ some (p, r)
    → change_of r ≡ no_change
unfolding find_pattern
find_pattern-silent method path [] p r silent e = cc
find_pattern-silent method path (q ∷ ps) p r (here, silent) e =
    elim (Option-cases (match_pattern q method path)) [
      | inl f ↦ find_pattern-silent method path ps p r silent (rw (f, find_pattern) at e)
      | inr (ws, f) ↦
          let found : some (q, q.route ws) ≡ some (p, r) = rw (f, find_pattern) at e in
          let route : q.route ws ≡ r = cc in rw (sym route) (here ws f)
    ]

with_slash-silent :
    (method : Text) (path : List Text) (otherwise : Route)
    → change_of otherwise ≡ no_change
    → change_of (with_slash method path otherwise) ≡ no_change
unfolding with_slash
with_slash-silent method path otherwise h = elim (Bool-cases (ends_in_slash path)) [
  | inl e ↦ rw (e, with_slash) h
  | inr e ↦ elim (Option-cases (find_pattern method (path ++ [] ∷ []) all_patterns)) [
    | inl f ↦ rw (e, f, with_slash) h
    | inr ((p, r), f) ↦ elim (Bool-cases (is_exact p (path ++ [] ∷ []))) [
      | inl g ↦ rw (e, f, with_slash) (rw g refl)
      | inr g ↦ rw (e, f, with_slash) (rw g h)
    ]
  ]
]

pub dispatch-silent :
    (method : Text) (path : List Text)
    → All (IsSilent method path) all_patterns
    → change_of (dispatch method path) ≡ no_change
unfolding dispatch
dispatch-silent method path silent = elim (Option-cases (find_pattern method path all_patterns)) [
  | inl e ↦
      rw (e, dispatch)
        (with_slash-silent method path _ (elim (Bool-cases (some_path path all_patterns)) [
          | inl f ↦ rw f refl
          | inr f ↦ rw f refl
        ]))
  | inr ((p, r), e) ↦
      let leaves = find_pattern-silent method path all_patterns p r silent e in
      elim (Bool-cases (is_exact p path)) [
        | inl f ↦ rw (e, dispatch) (rw f leaves)
        | inr f ↦ rw (e, dispatch) (rw f (with_slash-silent method path r leaves))
      ]
]

-- A pattern that is not for GET takes its own method.
accepts-same :
    (p : Pattern) (method : Text) (path ws : List Text)
    → same p.method (codes "GET") ≡ false
    → match_pattern p method path ≡ some ws
    → (method ≡ p.method) × (match_path p.path path ≡ some ws)
unfolding match_pattern accepts
accepts-same p method path ws h m =
    (ground (arith, same_iff p.method method, h, m), ground (arith, m))

posts-match_pattern :
    (name method : Text) (path ws : List Text) (r : Route)
    → posts name method path ≡ false
    → match_pattern (fixed (codes "POST") (autopin_path name) r) method path ≡ some ws
    → change_of r ≡ no_change
unfolding same
posts-match_pattern name method path ws r none_such m =
    let (e, f) = accepts-same (fixed (codes "POST") (autopin_path name) r) method path ws refl m in
    let g = match_path-same_path (codes "api" ∷ codes "autopin" ∷ name ∷ []) path ws f in
    absurd (ground (arith, (same_iff method (codes "POST")).1 e, g, none_such))

id-match_pattern :
    (own method : Text) (path ws : List Text) (route : Text → Route)
    → same own (codes "GET") ≡ false
    → match_pattern (with_value own (rules_path (wildcard ∷ [])) route) method path ≡ some ws
    → (method ≡ own) × ((id : Text) × (id_of path ≡ some id))
id-match_pattern own method path ws route h m =
    let (e, f) =
      accepts-same (with_value own (rules_path (wildcard ∷ [])) route) method path ws h m in
    (e, match_path-id_of path ws f)

put-silent :
    (method : Text) (path ws : List Text)
    → change_of_id method (id_of path) ≡ no_change
    → match_pattern
        (with_value (codes "PUT") (rules_path (wildcard ∷ [])) Route.update_rule)
        method
        path
      ≡ some ws
    → ⊥
unfolding same
put-silent method path ws h m =
    let (e, (id, f)) = id-match_pattern (codes "PUT") method path ws Route.update_rule refl m in
    let gone : puts id ≡ no_change = rw f at (rw e at h) in cc

delete-silent :
    (method : Text) (path ws : List Text)
    → change_of_id method (id_of path) ≡ no_change
    → match_pattern
        (with_value (codes "DELETE") (rules_path (wildcard ∷ [])) Route.delete_rule)
        method
        path
      ≡ some ws
    → ⊥
unfolding same
delete-silent method path ws h m =
    let (e, (id, f)) = id-match_pattern (codes "DELETE") method path ws Route.delete_rule refl m in
    let gone : deletes id ≡ no_change = rw f at (rw e at h) in cc

-- Where a request has none of the five meanings, every pattern is silent.
pub all_patterns-IsSilent :
    (method : Text) (path : List Text)
    → posts (codes "rules") method path ≡ false
    → posts (codes "enable-all") method path ≡ false
    → posts (codes "disable-all") method path ≡ false
    → change_of_id method (id_of path) ≡ no_change
    → All (IsSilent method path) all_patterns
unfolding handler_patterns
all_patterns-IsSilent method path no_add no_enable no_disable no_id = (
  λ ws m. refl,
  (
    λ ws m. refl,
    (
      λ ws m. refl,
      (
        λ ws m. refl,
        (
          λ ws m. refl,
          (
            λ ws m. refl,
            (
              λ ws m. posts-match_pattern (codes "rules") method path ws Route.add_rule no_add m,
              (
                λ ws m. absurd (put-silent method path ws no_id m),
                (
                  λ ws m. absurd (delete-silent method path ws no_id m),
                  (
                    λ ws m.
                        posts-match_pattern (codes "enable-all") method path ws Route.enable_all
                          no_enable m,
                    (
                      λ ws m.
                          posts-match_pattern (codes "disable-all") method path ws Route.disable_all
                            no_disable m,
                      (λ ws m. refl, (λ ws m. refl, (λ ws m. refl, tt))),
                    ),
                  ),
                ),
              ),
            ),
          ),
        ),
      ),
    ),
  ),
)
