-- ===== src/Server/Proxy.antt =====
-- server.go: handleIPFSProxy, in front of the gateway of an embedded node.
use pevo_pinner.Prelude.{
  ◌≡◌, ◌↔◌, ◌⊎◌, refl, inl, inr, true, false, Option, none, some, ◌++◌, Bool-cases, Option-cases,
  if◌then◌else◌,
}
use pevo_pinner.Prelude.Text.{Text, codes, is_empty, has, before}
use pevo_pinner.Cid.{validate_cid}
use pevo_pinner.Backend.{IpfsBackend}
use pevo_pinner.Node.{EmbeddedNode, gateway_guard, forwarded}
use pevo_pinner.Node.Guard.{gateway_guard_lem}
use pevo_pinner.Server.{BackendKind, embedded, pinata, other, Server, Response, fails, redirect}
use pevo_pinner.Server.Pins.{not_empty}

-- `host` is the host of the request, `raw` the path behind `/ipfs/`; `split_host_port` is that of
-- package net.
unfoldable pub proxy_target :
    (split_host_port : Text → Option (Text × Text)) → (gateway_bind host : Text) → Text
proxy_target split_host_port gateway_bind host = elim (split_host_port host) [
  | none ↦ codes "http://" ++ host
  | some (h, port) ↦ elim (split_host_port gateway_bind) [
    | none ↦ codes "http://" ++ host
    | some (bind_host, gw_port) ↦ codes "http://" ++ (h ++ (codes ":" ++ gw_port))
  ]
]

abbrev pub proxy_location :
    (split_host_port : Text → Option (Text × Text)) → BackendKind → (host raw : Text) → Text
proxy_location split_host_port (embedded bind) host raw =
    proxy_target split_host_port bind host ++ (codes "/ipfs/" ++ raw)
proxy_location split_host_port pinata host raw = codes "https://gateway.pinata.cloud/ipfs/" ++ raw
proxy_location split_host_port other host raw = codes "https://gateway.pinata.cloud/ipfs/" ++ raw

module _ (b : IpfsBackend) where
  unfoldable pub handle_ipfs_proxy :
      (split_host_port : Text → Option (Text × Text)) → (host raw : Text) → Server b → Response
  unfolding proxy_target
  handle_ipfs_proxy split_host_port host raw s =
      let cid_part = before b'/' raw in
      if is_empty cid_part
      then fails 400
      else (if validate_cid cid_part
          then redirect (proxy_location split_host_port s.kind host raw)
          else fails 400)

-- The answer to a request for the host `host`: if both it and the address of the gateway have a port,
-- the redirect to its name with the port of the gateway; else the redirect to `host` itself.
abbrev pub IsSentOn :
    (split_host_port : Text → Option (Text × Text))
    → (gateway_bind host raw : Text) → Response
    → Type 0
IsSentOn split_host_port gateway_bind host raw answer =
    ((name : Text) × (port : Text) × (bind_host : Text) × (gw_port : Text) × (split_host_port host
        ≡ some (name, port))
      × (split_host_port gateway_bind ≡ some (bind_host, gw_port))
      × (answer
          ≡ redirect
              (codes "http://" ++ (name ++ (codes ":" ++ gw_port)) ++ (codes "/ipfs/" ++ raw))))
    ⊎ (((split_host_port host ≡ none) ⊎ (split_host_port gateway_bind ≡ none))
        × (answer ≡ redirect ((codes "http://" ++ host) ++ (codes "/ipfs/" ++ raw))))

module _ (split_host_port : Text → Option (Text × Text)) (b : IpfsBackend) where
  proxy_target-IsSentOn :
      (bind host raw : Text)
      → IsSentOn split_host_port bind host raw
          (redirect (proxy_target split_host_port bind host ++ (codes "/ipfs/" ++ raw)))
  unfolding proxy_target
  proxy_target-IsSentOn bind host raw = elim (Option-cases (split_host_port host)) [
    | inl e ↦ inr (inl e, rw (e, proxy_target) refl)
    | inr ((name, port), e) ↦ elim (Option-cases (split_host_port bind)) [
      | inl f ↦ inr (inr f, rw (e, f, proxy_target) refl)
      | inr ((bind_host, gw_port), f) ↦
          inl (name, port, bind_host, gw_port, e, f, rw (e, f, proxy_target) refl)
    ]
  ]

  -- In front of an embedded node, the proxy answers 400 if the first component of the path is no
  -- CID, and else redirects: if the host of the request and the address of the gateway both have a
  -- port, to the name of that host with the port of the gateway, and if not, to the host of the
  -- request itself, in both cases followed by /ipfs/ and the decoded rest of the path; and the
  -- gateway forwards a request for the path that consists of /ipfs/ and this rest exactly when the
  -- CID is pinned.
  pub handle_ipfs_proxy_lem :
      (bind host raw : Text) (s : Server b) (n : EmbeddedNode)
      → s.kind ≡ embedded bind
      → ((validate_cid (before b'/' raw) ≡ false)
          × (handle_ipfs_proxy b split_host_port host raw s ≡ fails 400))
        ⊎ ((validate_cid (before b'/' raw) ≡ true)
            × IsSentOn split_host_port bind host raw
                (handle_ipfs_proxy b split_host_port host raw s)
            × ((gateway_guard n (codes "/ipfs/" ++ raw) ≡ forwarded)
                ↔ (has (before b'/' raw) n.pins ≡ true)))
  unfolding handle_ipfs_proxy
  handle_ipfs_proxy_lem bind host raw s n mode =
      elim (Bool-cases (validate_cid (before b'/' raw))) [
        | inr bad ↦ elim (Bool-cases (is_empty (before b'/' raw))) [
          | inl e ↦ inl (bad, rw (e, handle_ipfs_proxy) refl)
          | inr e ↦ inl (bad, rw (e, bad, handle_ipfs_proxy) refl)
        ]
        | inl good ↦
            let guard = gateway_guard_lem n raw in
            let answered : handle_ipfs_proxy b split_host_port host raw s
                ≡ redirect (proxy_target split_host_port bind host ++ (codes "/ipfs/" ++ raw)) =
              simp (not_empty (before b'/' raw) good, good, mode, handle_ipfs_proxy) refl in
            inr (
              good,
              rw answered (proxy_target-IsSentOn bind host raw),
              (λ e. (guard.0 e).1, λ p. guard.1 (good, p)),
            )
      ]
