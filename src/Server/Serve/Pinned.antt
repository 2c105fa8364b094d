-- ===== src/Server/Serve/Pinned.antt =====
-- From the request to the gateway: what POST /api/pin/{cid} of an embedded node has to do with what its
-- gateway serves.
use pevo_pinner.Prelude.{
  ℕ, ◌≡◌, refl, ap, ◌∙◌, Bool, true, false, ◌||◌, Option, none, List, [], ◌∷◌, ◌++◌, arith,
}
use pevo_pinner.Prelude.Text.{Text, codes, is_empty, same, same_refl, has}
use pevo_pinner.Cid.{validate_cid}
use pevo_pinner.AtomicFile.{Faults}
use pevo_pinner.AutoPin.Rule.{AutoPinRule}
use pevo_pinner.Backend.{IpfsBackend, IsPinSet}
use pevo_pinner.Node.{Outside, forwarded}
use pevo_pinner.Node.Guard.{gateway_guard-append}
use pevo_pinner.Node.Interface.{embedded_backend, embedded_backend-IsPinSet}
use pevo_pinner.Node.Host.{gateway_mux, guarded, under-guarded, append-is_under}
use pevo_pinner.Server.{Server, Response, write_json, pin_status, handle_pin}
use pevo_pinner.Server.Pins.{Handled, refused, failed, finished, handle_pin_lem}
use pevo_pinner.Server.Routes.{
  pin, papers, handler_patterns, fixed, with_value, api, literal, wildcard, match_pattern,
  match_path, accepts, dispatch,
}
use pevo_pinner.Server.Routes.Dispatch.{dispatch-match_pattern}
use pevo_pinner.Server.Serve.{Moment, ApiRequest, Reply, wrote, serve_route, serve_http}

-- A pin handler that answers 200 has made the CID a member.
finished-member :
    (b : IpfsBackend) (member : b.State → Text → Bool) (set : IsPinSet b member) (cid : Text)
    (s : Server b) (p : Server b × Response)
    → Handled b member set cid s (codes "pinned") (λ x. same cid x || member s.backend x) p
    → p.1 ≡ write_json (pin_status (codes "pinned") cid)
    → (validate_cid cid ≡ true) × (member p.0.backend cid ≡ true)
finished-member b member set cid s p (refused bad) e = absurd (omega (arith, ap (λ r. r.status) e))
finished-member b member set cid s p (failed now v k) e =
    absurd (omega (arith, ap (λ r. r.status) e))
finished-member b member set cid s p (finished now v k) e =
    (v, k cid ∙ ground (arith, same_refl cid))

dispatch-pin :
    (cid : Text)
    → is_empty cid ≡ false
    → dispatch (codes "POST") (codes "api" ∷ codes "pin" ∷ cid ∷ []) ≡ pin cid
unfolding handler_patterns match_pattern match_path accepts same
dispatch-pin cid h =
    dispatch-match_pattern (fixed (codes "GET") (api (literal (codes "papers") ∷ [])) papers ∷ [])
      (with_value (codes "POST") (api (literal (codes "pin") ∷ wildcard ∷ [])) pin) _ (codes "POST")
      (codes "api" ∷ codes "pin" ∷ cid ∷ []) (cid ∷ []) refl (simp h refl)

module _ (world : ℕ → Outside) (faults : ℕ → Faults) (marshal : List AutoPinRule → Option Text)
    (unmarshal : Text → Option (List AutoPinRule)) (split_host_port : Text → Option (Text × Text))
    (lower : Text → Text) (parse_date : Text → Option ℕ) where
  abbrev pub node_backend : IpfsBackend
  node_backend = embedded_backend world faults

  -- `POST /api/pin/{cid}`
  abbrev pub pin_request : (cid host : Text) → ApiRequest
  pin_request cid host = record {
    method = codes "POST";
    path = codes "api" ∷ codes "pin" ∷ cid ∷ [];
    host = host;
    body = none;
  }

  abbrev pub after_pin :
      Moment node_backend → (cid host : Text) → Server node_backend → Server node_backend × Reply
  after_pin t cid host s =
      serve_http node_backend marshal unmarshal split_host_port lower parse_date t
        (pin_request cid host) s

  -- Whatever the world answers and whatever fails, if the server over an embedded node answers a
  -- request POST /api/pin/{cid} with a CID that is not empty by saying that it is pinned, then the
  -- gateway of the node passes on every path below /ipfs/{cid}/ that the mux has cleaned.
  pub pin-served :
      (t : Moment node_backend) (cid host rest : Text) (s : Server node_backend)
      → is_empty cid ≡ false
      → (after_pin t cid host s).1 ≡ wrote (write_json (pin_status (codes "pinned") cid))
      → gateway_mux (after_pin t cid host s).0.backend (codes "/ipfs/" ++ (cid ++ b'/' ∷ rest))
        ≡ guarded forwarded
  unfolding serve_http serve_route
  pin-served t cid host rest s filled e =
      let p = handle_pin node_backend t.call cid s in
      let same_reply : after_pin t cid host s ≡ (p.0, wrote p.1) =
        rw (dispatch-pin cid filled, serve_http) refl in
      let answered : wrote p.1 ≡ wrote (write_json (pin_status (codes "pinned") cid)) =
        rw same_reply at e in
      let (valid, pinned) =
        finished-member node_backend (λ n x. has x n.pins) (embedded_backend-IsPinSet world faults)
          cid s p
          (handle_pin_lem node_backend (λ n x. has x n.pins)
            (embedded_backend-IsPinSet world faults) t.call cid s)
          cc in
      rw same_reply (
        under-guarded p.0.backend _ (append-is_under (codes "/ipfs/") (cid ++ b'/' ∷ rest))
        ∙ ap guarded (gateway_guard-append p.0.backend cid rest valid ∙ rw pinned refl))
