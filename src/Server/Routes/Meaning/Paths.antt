-- ===== src/Server/Routes/Meaning/Paths.antt =====
-- NewServer: the paths of the requests that change the rules.
use pevo_pinner.Prelude.{
  ℕ, ◌≡◌, refl, ap, inl, inr, true, none, some, List, [], ◌∷◌, ◌++◌, map, Bool-cases, arith,
}
use pevo_pinner.Prelude.Text.{Text, codes, same_iff}
use pevo_pinner.Server.Routes.{literal, wildcard, rules_path, match_path}
use pevo_pinner.Server.Routes.Meaning.{same_path, id_of}

pub same_path_sound : (xs ys : List Text) → same_path xs ys ≡ true → xs ≡ ys
unfolding same_path
same_path_sound [] [] h = refl
same_path_sound (x ∷ xs) (y ∷ ys) h = ground (arith, same_iff x y, same_path_sound xs ys, h)
same_path_sound [] (y ∷ ys) h = cc
same_path_sound (x ∷ xs) [] h = cc

pub match_path-same_path :
    (ts path ws : List Text) → match_path (map literal ts) path ≡ some ws → same_path path ts ≡ true
unfolding match_path same_path
match_path-same_path [] [] ws m = refl
match_path-same_path [] (x ∷ xs) ws m = cc
match_path-same_path (t ∷ ts) [] ws m = cc
match_path-same_path (t ∷ ts) (x ∷ xs) ws m =
    ground (arith, same_iff t x, same_iff x t, match_path-same_path ts xs ws, m)

pub id_of_sound :
    (path : List Text) (id : Text)
    → id_of path ≡ some id
    → (x : ℕ) × (xs : Text) × (id ≡ x ∷ xs)
      × (path ≡ codes "api" ∷ codes "autopin" ∷ codes "rules" ∷ (x ∷ xs) ∷ [])
unfolding id_of
id_of_sound (a ∷ b ∷ c ∷ (x ∷ xs) ∷ []) id h =
    elim (Bool-cases
      (same_path (a ∷ b ∷ c ∷ []) (codes "api" ∷ codes "autopin" ∷ codes "rules" ∷ []))) [
        | inl e ↦
            let p = same_path_sound (a ∷ b ∷ c ∷ []) _ e in
            let q : some (x ∷ xs) ≡ some id = rw (e, id_of) at h in
            (x, xs, cc, ap (λ ts. ts ++ (x ∷ xs) ∷ []) p)
        | inr e ↦ let gone : none ≡ some id = rw (e, id_of) at h in cc
      ]
id_of_sound _ id h = cc

pub match_path-id_of :
    (path ws : List Text)
    → match_path (rules_path (wildcard ∷ [])) path ≡ some ws
    → (id : Text) × (id_of path ≡ some id)
unfolding match_path id_of same_path
match_path-id_of (a ∷ b ∷ c ∷ (x ∷ xs) ∷ []) ws m = (
  x ∷ xs,
  ground (
    arith,
    same_iff a (codes "api"),
    same_iff (codes "api") a,
    same_iff b (codes "autopin"),
    same_iff (codes "autopin") b,
    same_iff c (codes "rules"),
    same_iff (codes "rules") c,
    m,
  ),
)
match_path-id_of _ ws m = absurd (ground (arith, m))
