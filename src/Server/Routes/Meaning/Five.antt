-- ===== src/Server/Routes/Meaning/Five.antt =====
-- NewServer: the requests that change the rules reach the handlers that do.
use pevo_pinner.Prelude.{
  ℕ, ◌≡◌, refl, sym, ap, ◌∙◌, inl, inr, true, false, some, List, [], ◌∷◌, Bool-cases, Option-cases,
  arith,
}
use pevo_pinner.Prelude.Text.{Text, codes, same, same_iff}
use pevo_pinner.Server.Routes.{
  match_path, accepts, match_pattern, find_pattern, handler_patterns, is_exact, with_slash,
  dispatch,
}
use pevo_pinner.Server.Routes.Meaning.{
  adds, puts, deletes, sets_all, id_of, posts, change_of_id, meaning, change_of,
}
use pevo_pinner.Server.Routes.Meaning.Paths.{same_path_sound, id_of_sound}
use pevo_pinner.Server.Routes.Meaning.Silent.{dispatch-silent, all_patterns-IsSilent}

-- The five requests.
dispatch-posts :
    (method : Text) (path : List Text) (name : Text)
    → posts name method path ≡ true
    → dispatch method path ≡ dispatch (codes "POST") (codes "api" ∷ codes "autopin" ∷ name ∷ [])
dispatch-posts method path name h =
    let m = (same_iff method (codes "POST")).0 (ground (arith, h)) in
    let p = same_path_sound path (codes "api" ∷ codes "autopin" ∷ name ∷ []) (ground (arith, h)) in
    rw (m, p) refl

dispatch_add :
    change_of (dispatch (codes "POST") (codes "api" ∷ codes "autopin" ∷ codes "rules" ∷ [])) ≡ adds
unfolding dispatch with_slash find_pattern match_pattern match_path accepts handler_patterns
    is_exact same
dispatch_add = refl

dispatch_enable :
    change_of (dispatch (codes "POST") (codes "api" ∷ codes "autopin" ∷ codes "enable-all" ∷ []))
    ≡ sets_all true
unfolding dispatch with_slash find_pattern match_pattern match_path accepts handler_patterns
    is_exact same
dispatch_enable = refl

dispatch_disable :
    change_of (dispatch (codes "POST") (codes "api" ∷ codes "autopin" ∷ codes "disable-all" ∷ []))
    ≡ sets_all false
unfolding dispatch with_slash find_pattern match_pattern match_path accepts handler_patterns
    is_exact same
dispatch_disable = refl

dispatch_put :
    (x : ℕ) (xs : Text)
    → change_of
        (dispatch (codes "PUT") (codes "api" ∷ codes "autopin" ∷ codes "rules" ∷ (x ∷ xs) ∷ []))
      ≡ puts (x ∷ xs)
unfolding dispatch with_slash find_pattern match_pattern match_path accepts handler_patterns
    is_exact same
dispatch_put x xs = refl

dispatch_delete :
    (x : ℕ) (xs : Text)
    → change_of
        (dispatch (codes "DELETE") (codes "api" ∷ codes "autopin" ∷ codes "rules" ∷ (x ∷ xs) ∷ []))
      ≡ deletes (x ∷ xs)
unfolding dispatch with_slash find_pattern match_pattern match_path accepts handler_patterns
    is_exact same
dispatch_delete x xs = refl

dispatch-id :
    (method : Text) (path : List Text) (id : Text)
    → id_of path ≡ some id
    → posts (codes "rules") method path ≡ false
    → posts (codes "enable-all") method path ≡ false
    → posts (codes "disable-all") method path ≡ false
    → change_of (dispatch method path) ≡ change_of_id method (some id)
dispatch-id method path id e no_add no_enable no_disable =
    let (x, xs, same_id, p) = id_of_sound path id e in
    elim (Bool-cases (same method (codes "PUT"))) [
      | inl f ↦
          rw f (
            rw ((same_iff method (codes "PUT")).0 f, p) (dispatch_put x xs ∙ ap puts (sym same_id)))
      | inr f ↦ elim (Bool-cases (same method (codes "DELETE"))) [
        | inl g ↦
            rw (f, g)
              (rw ((same_iff method (codes "DELETE")).0 g, p)
                (dispatch_delete x xs ∙ ap deletes (sym same_id)))
        | inr g ↦
            rw (f, g)
              (dispatch-silent method path
                (all_patterns-IsSilent method path no_add no_enable no_disable (rw (e, f, g) refl)))
      ]
    ]

-- The mux brings a request to a handler that changes the rules exactly as its method and path say.
pub dispatch-meaning :
    (method : Text) (path : List Text) → change_of (dispatch method path) ≡ meaning method path
unfolding meaning
dispatch-meaning method path = elim (Bool-cases (posts (codes "rules") method path)) [
  | inl e ↦
      rw (e, meaning) (ap change_of (dispatch-posts method path (codes "rules") e) ∙ dispatch_add)
  | inr e ↦ elim (Bool-cases (posts (codes "enable-all") method path)) [
    | inl f ↦
        rw (e, f, meaning)
          (ap change_of (dispatch-posts method path (codes "enable-all") f) ∙ dispatch_enable)
    | inr f ↦ elim (Bool-cases (posts (codes "disable-all") method path)) [
      | inl g ↦
          rw (e, f, g, meaning)
            (ap change_of (dispatch-posts method path (codes "disable-all") g) ∙ dispatch_disable)
      | inr g ↦ elim (Option-cases (id_of path)) [
        | inl h ↦
            rw (e, f, g, h, meaning)
              (dispatch-silent method path (all_patterns-IsSilent method path e f g (rw h refl)))
        | inr (id, h) ↦ rw (e, f, g, h, meaning) (dispatch-id method path id h e f g)
      ]
    ]
  ]
]
