-- ===== src/Server/Routes.antt =====
-- server.go: the routes that NewServer registers on its `http.ServeMux`, as the mux reads them. The
-- path of a request is the list of its segments after the cleaning of the mux, decoded; a slash at its
-- end is a last segment that is empty.
mod Apart
pub mod Dispatch
pub mod Meaning
mod Tests
use pevo_pinner.Prelude.{
  ℕ, Bool, true, false, ◌&&◌, ◌||◌, Option, none, some, List, [], ◌∷◌, ◌++◌, length, ◌==◌,
  if◌then◌else◌,
}
use pevo_pinner.Prelude.Text.{Text, codes, is_empty, same}

pub data Segment : Type 0 where
  literal : Text → Segment
  -- `{cid}` and `{id}`
  wildcard : Segment
  -- A slash at the end of a pattern, which matches any rest of a path.
  rest : Segment

-- The handlers, with what the wildcards matched, and what the mux answers by itself.
pub data Route : Type 0 where
  papers pin_all status get_rules add_rule enable_all disable_all evaluate ipfs_proxy static_files :
      Route
  pin unpin : (cid : Text) → Route
  update_rule delete_rule : (id : Text) → Route
  move_to_slash method_not_allowed not_found : Route

-- What follows the method and the path of a pattern is the handler, given what the wildcards match.
pub record Pattern : Type 0 where
  pub method : Text
  pub path : List Segment
  pub route : List Text → Route

abbrev pub fixed : Text → List Segment → Route → Pattern
fixed method path route = record { method = method; path = path; route = λ ws. route }

-- `r.PathValue`
abbrev pub path_value : List Text → Text
path_value [] = []
path_value (w ∷ ws) = w

abbrev pub with_value : Text → List Segment → (Text → Route) → Pattern
with_value method path route = record {
  method = method;
  path = path;
  route = λ ws. route (path_value ws);
}

abbrev pub api : List Segment → List Segment
api path = literal (codes "api") ∷ path

-- `/api/autopin/rules`
abbrev pub rules_path : List Segment → List Segment
rules_path path = api (literal (codes "autopin") ∷ literal (codes "rules") ∷ path)

abbrev pub autopin_path : Text → List Segment
autopin_path name = api (literal (codes "autopin") ∷ literal name ∷ [])

-- All patterns but the last, in the order of the source.
unfoldable pub handler_patterns : List Pattern
handler_patterns =
    fixed (codes "GET") (api (literal (codes "papers") ∷ [])) papers
    ∷ with_value (codes "POST") (api (literal (codes "pin") ∷ wildcard ∷ [])) pin
    ∷ with_value (codes "POST") (api (literal (codes "unpin") ∷ wildcard ∷ [])) unpin
    ∷ fixed (codes "POST") (api (literal (codes "pin-all") ∷ [])) pin_all
    ∷ fixed (codes "GET") (api (literal (codes "status") ∷ [])) status
    ∷ fixed (codes "GET") (rules_path []) get_rules
    ∷ fixed (codes "POST") (rules_path []) add_rule
    ∷ with_value (codes "PUT") (rules_path (wildcard ∷ [])) update_rule
    ∷ with_value (codes "DELETE") (rules_path (wildcard ∷ [])) delete_rule
    ∷ fixed (codes "POST") (autopin_path (codes "enable-all")) enable_all
    ∷ fixed (codes "POST") (autopin_path (codes "disable-all")) disable_all
    ∷ fixed (codes "POST") (autopin_path (codes "evaluate")) evaluate
    ∷ fixed (codes "GET") (literal (codes "ipfs") ∷ rest ∷ []) ipfs_proxy
    ∷ []

-- `GET /`
abbrev pub root_pattern : Pattern
root_pattern = fixed (codes "GET") (rest ∷ []) static_files

-- What the wildcards of a pattern match; none: the path is not one of the pattern.
unfoldable pub match_path : List Segment → List Text → Option (List Text)
match_path [] [] = some []
match_path [] (x ∷ xs) = none
match_path (p ∷ ps) [] = none
match_path (literal t ∷ ps) (x ∷ xs) =
    let later = match_path ps xs in if same t x then later else none
match_path (wildcard ∷ ps) (x ∷ xs) =
    let later = match_path ps xs in
    if is_empty x then none else elim later [ none ↦ none | some ws ↦ some (x ∷ ws) ]
match_path (rest ∷ ps) (x ∷ xs) = some []

-- A pattern for GET takes HEAD, too.
unfoldable pub accepts : Pattern → (method : Text) → Bool
accepts p method =
    same p.method method || (same p.method (codes "GET") && same method (codes "HEAD"))

unfoldable pub match_pattern : Pattern → (method : Text) → List Text → Option (List Text)
match_pattern p method path = if accepts p method then match_path p.path path else none

-- The first pattern that matches. No two handler patterns match the same request, and the one for
-- `GET /` is the least specific.
unfoldable pub find_pattern : (method : Text) → List Text → List Pattern → Option (Pattern × Route)
find_pattern method path [] = none
find_pattern method path (p ∷ ps) = elim (match_pattern p method path) [
  | some ws ↦ some (p, p.route ws)
  | none ↦ find_pattern method path ps
]

abbrev pub ends_in_slash : List Text → Bool
ends_in_slash [] = false
ends_in_slash (x ∷ []) = is_empty x
ends_in_slash (x ∷ y ∷ ys) = ends_in_slash (y ∷ ys)

-- A pattern that ends in a slash.
abbrev pub takes_rest : List Segment → Bool
takes_rest [] = false
takes_rest (literal t ∷ ps) = takes_rest ps
takes_rest (wildcard ∷ ps) = takes_rest ps
takes_rest (rest ∷ ps) = is_empty ps

-- `exactMatch` of the mux.
unfoldable pub is_exact : Pattern → List Text → Bool
is_exact p path =
    if takes_rest p.path then ends_in_slash path && (length p.path == length path) else true

abbrev pub all_patterns : List Pattern
all_patterns = handler_patterns ++ root_pattern ∷ []

-- Some pattern is one for the path with another method.
unfoldable pub some_path : List Text → List Pattern → Bool
some_path path [] = false
some_path path (p ∷ ps) = elim (match_path p.path path) [
  | some ws ↦ true
  | none ↦ some_path path ps
]

-- No pattern matches, or none exactly: a redirect to the path with a slash, if that one is exact.
unfoldable pub with_slash : (method : Text) → List Text → Route → Route
with_slash method path otherwise =
    if ends_in_slash path
    then otherwise
    else elim (find_pattern method (path ++ [] ∷ []) all_patterns) [
      | none ↦ otherwise
      | some (p, route) ↦ if is_exact p (path ++ [] ∷ []) then move_to_slash else otherwise
    ]

unfoldable pub dispatch : (method : Text) → List Text → Route
dispatch method path = elim (find_pattern method path all_patterns) [
  | some (p, route) ↦ if is_exact p path then route else with_slash method path route
  | none ↦
      with_slash method path (if some_path path all_patterns then method_not_allowed else not_found)
]
