-- ===== src/Server/Routes/Tests.antt =====
-- Requests on the routes, and the result applied to one.
use pevo_pinner.Prelude.{◌≡◌, refl, [], ◌∷◌}
use pevo_pinner.Prelude.Text.{codes, same}
use pevo_pinner.Server.Routes.{
  Pattern, with_value, api, literal, wildcard, pin, fixed, papers, ipfs_proxy, static_files,
  move_to_slash, method_not_allowed, match_path, accepts, match_pattern, find_pattern,
  handler_patterns, is_exact, with_slash, some_path, dispatch,
}
use pevo_pinner.Server.Routes.Dispatch.{dispatch-match_pattern}

served : dispatch (codes "GET") (codes "ipfs" ∷ codes "c" ∷ codes "a.pdf" ∷ []) ≡ ipfs_proxy
unfolding dispatch with_slash find_pattern match_pattern match_path accepts handler_patterns
    is_exact same
served = refl

sent_to_slash : dispatch (codes "GET") (codes "ipfs" ∷ []) ≡ move_to_slash
unfolding dispatch with_slash find_pattern match_pattern match_path accepts handler_patterns
    is_exact same
sent_to_slash = refl

page : dispatch (codes "HEAD") (codes "app.js" ∷ []) ≡ static_files
unfolding dispatch with_slash find_pattern match_pattern match_path accepts handler_patterns
    is_exact same
page = refl

wrong_method : dispatch (codes "GET") (codes "api" ∷ codes "pin" ∷ codes "c" ∷ []) ≡ static_files
unfolding dispatch with_slash find_pattern match_pattern match_path accepts handler_patterns
    is_exact same
wrong_method = refl

refused : dispatch (codes "PUT") (codes "api" ∷ codes "papers" ∷ []) ≡ method_not_allowed
unfolding dispatch with_slash find_pattern match_pattern match_path accepts handler_patterns
    is_exact some_path same
refused = refl

abbrev pin_pattern : Pattern
pin_pattern = with_value (codes "POST") (api (literal (codes "pin") ∷ wildcard ∷ [])) pin

dispatch-match_pattern_example :
    dispatch (codes "POST") (codes "api" ∷ codes "pin" ∷ codes "abc" ∷ []) ≡ pin (codes "abc")
unfolding handler_patterns match_pattern match_path accepts same
dispatch-match_pattern_example =
    dispatch-match_pattern (fixed (codes "GET") (api (literal (codes "papers") ∷ [])) papers ∷ [])
      pin_pattern _ (codes "POST") (codes "api" ∷ codes "pin" ∷ codes "abc" ∷ []) (codes "abc" ∷ [])
      refl refl
