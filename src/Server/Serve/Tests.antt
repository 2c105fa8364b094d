-- ===== src/Server/Serve/Tests.antt =====
-- Requests to a server, and the results applied to them.
use pevo_pinner.Prelude.{ℕ, ◌≡◌, refl, ◌++◌, Option, none, some, List, [], ◌∷◌}
use pevo_pinner.Prelude.Text.{Text, codes, same}
use pevo_pinner.AutoPin.Rule.{AutoPinRule}
use pevo_pinner.AutoPin.Manager.{default_rule}
use pevo_pinner.Node.Tests.{cid, no_faults, outside}
use pevo_pinner.Server.Tests.{backend, is_member, set, server, encode, decode, split}
use pevo_pinner.Server.Routes.{
  dispatch, with_slash, find_pattern, match_pattern, match_path, accepts, handler_patterns,
  is_exact,
}
use pevo_pinner.Server.Serve.{ApiRequest, Moment, serve_http, serve_route, serve_all, moved, wrote}
use pevo_pinner.Server.Serve.History.{history, Follows, serve_all-Follows}
use pevo_pinner.Server.Serve.Safe.{serve_http-safe}
use pevo_pinner.Cid.{validate_cid}
use pevo_pinner.Node.{pin, forwarded}
use pevo_pinner.Node.Host.{gateway_mux, guarded}
use pevo_pinner.Server.{handle_pin, write_json, pin_status}
use pevo_pinner.Server.Serve.Pinned.{after_pin, pin-served}

abbrev lower : Text → Text
lower t = t

abbrev no_date : Text → Option ℕ
no_date t = none

abbrev moment : Moment backend
moment = record {
  call = 0;
  now = 90;
  new_id = codes "two";
  faults = no_faults;
  runner = λ items s.
      (s, record { matched = 0; pinned = 0; failed = 0; shed = 0; is_pinned_errors = 0 });
}

abbrev request : (method : Text) → List Text → Option AutoPinRule → ApiRequest
request method path body = record {
  method = method;
  path = path;
  host = codes "localhost:8080";
  body = body;
}

abbrev delete_request : ApiRequest
delete_request =
    request (codes "DELETE") (codes "api" ∷ codes "autopin" ∷ codes "rules" ∷ codes "one" ∷ []) none

abbrev add_request : ApiRequest
add_request =
    request (codes "POST") (codes "api" ∷ codes "autopin" ∷ codes "rules" ∷ [])
      (some (default_rule []))

abbrev requests : List (Moment backend × ApiRequest)
requests = (moment, add_request) ∷ (moment, delete_request) ∷ []

-- A GET of a path without its slash.
sent_on :
    serve_http backend encode decode split lower no_date moment
      (request (codes "GET") (codes "ipfs" ∷ []) none)
      server
    ≡ (server, moved)
unfolding serve_http serve_route dispatch with_slash find_pattern match_pattern match_path accepts
    handler_patterns is_exact same
sent_on = refl

serve_all-Follows_example :
    Follows backend encode decode split lower no_date
      (history requests)
      server
      (serve_all backend encode decode split lower no_date requests server)
serve_all-Follows_example =
    serve_all-Follows backend encode decode split lower no_date requests server

serve_http-safe_example :
    (serve_http backend encode decode split lower no_date moment
      (request (codes "HEAD") (codes "api" ∷ codes "papers" ∷ []) none)
      server).0
    ≡ server
unfolding same
serve_http-safe_example =
    serve_http-safe backend is_member set encode decode split lower no_date moment
      (request (codes "HEAD") (codes "api" ∷ codes "papers" ∷ []) none) server refl

-- The node pins a valid CID at the first try.
answered :
    (after_pin
      (λ now. outside)
      (λ now. no_faults)
      encode
      decode
      split
      lower
      no_date
      moment
      cid
      (codes "localhost:8080")
      server).1
    ≡ wrote (write_json (pin_status (codes "pinned") cid))
unfolding serve_http serve_route dispatch with_slash find_pattern match_pattern match_path accepts
    handler_patterns is_exact handle_pin pin validate_cid same
answered = refl

pin-served_example :
    gateway_mux
      (after_pin
        (λ now. outside)
        (λ now. no_faults)
        encode
        decode
        split
        lower
        no_date
        moment
        cid
        (codes "localhost:8080")
        server).0.backend
      (codes "/ipfs/" ++ (cid ++ b'/' ∷ codes "a.pdf"))
    ≡ guarded forwarded
pin-served_example =
    pin-served (λ now. outside) (λ now. no_faults) encode decode split lower no_date moment cid
      (codes "localhost:8080") (codes "a.pdf") server refl answered
