-- ===== src/Server/Routes/Meaning.antt =====
-- NewServer: which requests change the rules, told from their methods and paths alone.
pub mod Paths
pub mod Silent
pub mod Five
use pevo_pinner.Prelude.{
  ℕ, ◌≡◌, refl, sym, ap, ◌∙◌, inl, inr, Bool, true, false, ◌&&◌, Option, none, some, List, [], ◌∷◌,
  ◌++◌, map, if◌then◌else◌, Bool-cases, Option-cases, All, arith,
}
use pevo_pinner.Prelude.Text.{Text, codes, is_empty, same, same_iff}
use pevo_pinner.Server.Routes.{Route}

-- What a request is to do to the rules.
pub data RuleChange : Type 0 where
  no_change adds : RuleChange
  puts deletes : (id : Text) → RuleChange
  sets_all : (enabled : Bool) → RuleChange

unfoldable pub same_path : List Text → List Text → Bool
same_path [] [] = true
same_path (x ∷ xs) (y ∷ ys) = same x y && same_path xs ys
same_path _ _ = false

-- The id of `/api/autopin/rules/{id}`.
unfoldable pub id_of : List Text → Option Text
id_of (a ∷ b ∷ c ∷ (x ∷ id) ∷ []) =
    if same_path (a ∷ b ∷ c ∷ []) (codes "api" ∷ codes "autopin" ∷ codes "rules" ∷ [])
    then some (x ∷ id)
    else none
id_of _ = none

-- A request with this method, and with the path `/api/autopin/` and this name.
abbrev pub posts : (name : Text) → (method : Text) → List Text → Bool
posts name method path =
    same method (codes "POST") && same_path path (codes "api" ∷ codes "autopin" ∷ name ∷ [])

abbrev pub change_of_id : (method : Text) → Option Text → RuleChange
change_of_id method none = no_change
change_of_id method (some id) =
    if same method (codes "PUT")
    then puts id
    else (if same method (codes "DELETE") then deletes id else no_change)

unfoldable pub meaning : (method : Text) → List Text → RuleChange
meaning method path =
    if posts (codes "rules") method path
    then adds
    else (if posts (codes "enable-all") method path
        then sets_all true
        else (if posts (codes "disable-all") method path
            then sets_all false
            else change_of_id method (id_of path)))

-- What a handler does to the rules.
abbrev pub change_of : Route → RuleChange
change_of Route.add_rule = adds
change_of (Route.update_rule id) = puts id
change_of (Route.delete_rule id) = deletes id
change_of Route.enable_all = sets_all true
change_of Route.disable_all = sets_all false
change_of _ = no_change
