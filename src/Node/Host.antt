-- ===== src/Node/Host.antt =====
-- ipfsnode_gateway.go: startGateway with its mux; ipfsnode_libp2p.go: the listen addresses of
-- newLibp2pHost.
use pevo_pinner.Prelude.{
  ◌≡◌, refl, sym, ap, ◌∙◌, ◌↔◌, ◌⊎◌, inl, inr, Bool, true, false, ◌&&◌, ◌||◌, Option, none, some,
  List, [], ◌∷◌, ◌++◌, if◌then◌else◌, Bool-cases, Option-cases, arith,
}
use pevo_pinner.Prelude.Text.{
  Text, codes, same, strip_prefix, strip_prefix-append, strip_prefix_sound, has, before,
}
use pevo_pinner.Cid.{validate_cid}
use pevo_pinner.Node.{EmbeddedNode, Verdict, gateway_guard, forwarded}
use pevo_pinner.Node.Guard.{gateway_guard_lem}

-- The options: libp2p's default addresses stand if the list is empty.
abbrev pub listen_option : List Text → Option (List Text)
listen_option [] = none
listen_option (a ∷ addrs) = some (a ∷ addrs)

-- What the mux of the gateway does with a path that it has cleaned: the handler of boxo gets it, or
-- the guard refuses it, or the mux redirects it to the path with a slash, or answers 404.
pub data GatewayAnswer : Type 0 where
  guarded : Verdict → GatewayAnswer
  to_slash : GatewayAnswer
  not_found : GatewayAnswer

unfoldable pub is_under : (prefix path : Text) → Bool
is_under prefix path = elim (strip_prefix prefix path) [ none ↦ false | some rest ↦ true ]

unfoldable pub gateway_mux : EmbeddedNode → (path : Text) → GatewayAnswer
gateway_mux n path =
    if is_under (codes "/ipfs/") path || is_under (codes "/ipns/") path
    then guarded (gateway_guard n path)
    else (if same path (codes "/ipfs") || same path (codes "/ipns") then to_slash else not_found)

-- The calls of startGateway; true stands for nil.
pub record GatewayCalls : Type 0 where
  pub makes_backend : Bool
  pub listens : Bool

unfoldable pub start_gateway : GatewayCalls → Bool
start_gateway c = c.makes_backend && c.listens

is_under-append :
    (prefix path : Text) → is_under prefix path ≡ true → (rest : Text) × (path ≡ prefix ++ rest)
unfolding is_under
is_under-append prefix path h = elim (Option-cases (strip_prefix prefix path)) [
  | inl e ↦ let gone : false ≡ true = rw (e, is_under) at h in cc
  | inr (rest, e) ↦ (rest, strip_prefix_sound prefix path rest e)
]

pub append-is_under : (prefix rest : Text) → is_under prefix (prefix ++ rest) ≡ true
unfolding is_under
append-is_under prefix rest = rw (strip_prefix-append prefix rest, is_under) refl

-- A path that is not under /ipfs/ is passed on.
elsewhere-gateway_guard :
    (n : EmbeddedNode) (path : Text)
    → is_under (codes "/ipfs/") path ≡ false
    → gateway_guard n path ≡ forwarded
unfolding is_under gateway_guard
elsewhere-gateway_guard n path h = elim (Option-cases (strip_prefix (codes "/ipfs/") path)) [
  | inl e ↦ rw (e, gateway_guard) refl
  | inr (rest, e) ↦ let gone : true ≡ false = rw (e, is_under) at h in cc
]

only_one : (rest : Text) → is_under (codes "/ipns/") (codes "/ipfs/" ++ rest) ≡ true → ⊥
unfolding is_under strip_prefix
only_one rest h = cc

pub under-guarded :
    (n : EmbeddedNode) (path : Text)
    → is_under (codes "/ipfs/") path ≡ true
    → gateway_mux n path ≡ guarded (gateway_guard n path)
unfolding gateway_mux
under-guarded n path h = rw (h, gateway_mux) refl

-- A path that the mux has cleaned is passed on to boxo by the gateway exactly when it is under
-- /ipns/, or under /ipfs/ with a valid CID as its first component that is pinned.
pub gateway_mux_iff :
    (n : EmbeddedNode) (path : Text)
    → (gateway_mux n path ≡ guarded forwarded) ↔ (
        (is_under (codes "/ipns/") path ≡ true)
        ⊎ ((rest : Text) × (path ≡ codes "/ipfs/" ++ rest)
            × (validate_cid (before b'/' rest) ≡ true)
            × (has (before b'/' rest) n.pins ≡ true)))
unfolding gateway_mux
gateway_mux_iff n path = elim (Bool-cases (is_under (codes "/ipfs/") path)) [
  | inl e ↦
      let (rest, p) = is_under-append (codes "/ipfs/") path e in
      (
        λ h.
            let g : guarded (gateway_guard n path) ≡ guarded forwarded =
              sym (under-guarded n path e) ∙ h in
            let passed : gateway_guard n path ≡ forwarded = cc in
            let (v, k) = (gateway_guard_lem n rest).0 (rw p at passed) in inr (rest, p, v, k),
        λ h. elim h [
          | inl ipns ↦ absurd (only_one rest (rw p at ipns))
          | inr (behind, p', v, k) ↦
              under-guarded n path e ∙ ap guarded (rw p' ((gateway_guard_lem n behind).1 (v, k)))
        ],
      )
  | inr e ↦ elim (Bool-cases (is_under (codes "/ipns/") path)) [
    | inl f ↦
        (λ h. inl f, λ h. rw (e, f, gateway_mux) (ap guarded (elsewhere-gateway_guard n path e)))
    | inr f ↦ (
      λ h.
          let g : (if same path (codes "/ipfs") || same path (codes "/ipns")
                then to_slash
                else not_found)
              ≡ guarded forwarded =
            rw (e, f, gateway_mux) at h in
          ground arith,
      λ h. elim h [
        | inl ipns ↦ absurd (cc (ipns, f))
        | inr (behind, p, v, k) ↦
            let under : is_under (codes "/ipfs/") path ≡ true =
              rw p (append-is_under (codes "/ipfs/") behind) in
            absurd (cc (under, e))
      ],
    )
  ]
]
