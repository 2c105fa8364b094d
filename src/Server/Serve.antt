-- ===== src/Server/Serve.antt =====
-- server.go: ServeHTTP: the mux and the handlers together, over any sequence of requests.
pub mod History
pub mod Safe
pub mod Pinned
mod Tests
use pevo_pinner.Prelude.{
  ℕ, ◌≡◌, refl, sym, ap, ◌∙◌, ◌⊎◌, inl, inr, Bool, true, false, ◌&&◌, ◌||◌, Option, none, some,
  List, [], ◌∷◌, ◌++◌, if◌then◌else◌, Bool-cases, Option-cases, All, arith,
}
use pevo_pinner.Prelude.Int.{ℤ, pos}
use pevo_pinner.Prelude.Text.{Text, codes, same, IsDistinct}
use pevo_pinner.AtomicFile.{Faults}
use pevo_pinner.AutoPin.Rule.{AutoPinRule}
use pevo_pinner.AutoPin.Manager.{AutoPinManager}
use pevo_pinner.AutoPin.Identity.{
  ids, Call, add, put, delete, enable, step, run, DrawsFresh, run-IsDistinct,
}
use pevo_pinner.Discovery.{Discovery}
use pevo_pinner.Backend.{IpfsBackend, IsPinSet}
use pevo_pinner.Server.{
  Server, Response, RunOf, handle_papers, handle_pin, handle_unpin, handle_pin_all, handle_status,
}
use pevo_pinner.Server.Proxy.{handle_ipfs_proxy}
use pevo_pinner.Server.Rules.{
  handle_get_rules, handle_add_rule, handle_update_rule, handle_delete_rule, handle_set_all_rules,
  handle_evaluate_rules,
}
use pevo_pinner.Server.Routes.{Route, dispatch}

-- `body` is what the JSON decoder makes of the body.
pub record ApiRequest : Type 0 where
  pub method : Text
  pub path : List Text
  pub host : Text
  pub body : Option AutoPinRule

-- What one request meets: the numbers of its calls of the backend, the time, the ID that is drawn, the
-- faults of the rules file, and what Run does.
pub record Moment (b : IpfsBackend) : Type 0 where
  pub call : ℕ
  pub now : ℕ
  pub new_id : Text
  pub faults : Faults
  pub runner : RunOf b

pub data Reply : Type 0 where
  wrote : Response → Reply
  -- The file server's answer, and those of the mux: the redirect, and an error.
  file : Reply
  moved : Reply
  refused : (status : ℕ) → Reply
  -- net/http recovers a panic of a handler and closes the connection.
  panicked : Reply

-- The segments of a path as they stand in `r.URL.Path`.
unfoldable pub join_path : List Text → Text
join_path [] = []
join_path (s ∷ []) = s
join_path (s ∷ t ∷ ts) = s ++ b'/' ∷ join_path (t ∷ ts)

-- `r.URL.Path[len("/ipfs/"):]`
abbrev pub behind_ipfs : List Text → Text
behind_ipfs [] = []
behind_ipfs (s ∷ ss) = join_path ss

module _ (b : IpfsBackend) (marshal : List AutoPinRule → Option Text)
    (unmarshal : Text → Option (List AutoPinRule)) (split_host_port : Text → Option (Text × Text))
    (lower : Text → Text) (parse_date : Text → Option ℕ) where
  abbrev pub written : Server b × Response → Server b × Reply
  written (s, r) = (s, wrote r)

  -- A handler that may panic.
  abbrev pub recovered : Server b → Option (Server b × Response) → Server b × Reply
  recovered s none = (s, panicked)
  recovered s (some p) = written p

  unfoldable pub serve_route : Route → Moment b → ApiRequest → Server b → Server b × Reply
  serve_route Route.papers t q s = written (handle_papers b t.call s)
  serve_route (Route.pin cid) t q s = written (handle_pin b t.call cid s)
  serve_route (Route.unpin cid) t q s = written (handle_unpin b t.call cid s)
  serve_route Route.pin_all t q s = written (handle_pin_all b t.runner s)
  serve_route Route.status t q s = recovered s (handle_status b t.call t.now s)
  serve_route Route.get_rules t q s = (s, wrote (handle_get_rules b s))
  serve_route Route.add_rule t q s =
      written (handle_add_rule b marshal unmarshal t.faults t.new_id q.body s)
  serve_route (Route.update_rule id) t q s =
      written (handle_update_rule b marshal unmarshal t.faults id q.body s)
  serve_route (Route.delete_rule id) t q s =
      written (handle_delete_rule b marshal unmarshal t.faults id s)
  serve_route Route.enable_all t q s =
      written (handle_set_all_rules b marshal unmarshal t.faults true s)
  serve_route Route.disable_all t q s =
      written (handle_set_all_rules b marshal unmarshal t.faults false s)
  serve_route Route.evaluate t q s = written (handle_evaluate_rules b lower parse_date t.runner s)
  serve_route Route.ipfs_proxy t q s =
      (s, wrote (handle_ipfs_proxy b split_host_port q.host (behind_ipfs q.path) s))
  serve_route Route.static_files t q s = (s, file)
  serve_route Route.move_to_slash t q s = (s, moved)
  serve_route Route.method_not_allowed t q s = (s, refused 405)
  serve_route Route.not_found t q s = (s, refused 404)

  -- `ServeHTTP`
  unfoldable pub serve_http : Moment b → ApiRequest → Server b → Server b × Reply
  serve_http t q s = serve_route (dispatch q.method q.path) t q s

  unfoldable pub serve_all : List (Moment b × ApiRequest) → Server b → Server b
  serve_all [] s = s
  serve_all ((t, q) ∷ qs) s = serve_all qs (serve_http t q s).0
