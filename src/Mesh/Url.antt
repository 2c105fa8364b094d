-- ===== src/Mesh/Url.antt =====
-- ipfsnode_pubsub.go: validateMeshGatewayURL, isUnsafeHost and isUnsafeIP. A `net.IP` is its bytes.
use pevo_pinner.Prelude.{
  ◌≡◌, refl, ◌≢◌, ◌↔◌, ◌⊎◌, inl, inr, Bool, true, false, not, ◌||◌, ◌&&◌, Option, none, some, List,
  [], ◌∷◌, All, arith, if◌then◌else◌, Bool-cases, Option-cases,
}
use pevo_pinner.Prelude.Text.{Text, codes, is_empty, same, same_iff}
use pevo_pinner.Fetch.Url.{Url, UrlPackage, normalized}

-- What the code takes from `net`, and `strings.EqualFold`. `lookup_ip` has none for an error.
pub record NetPackage : Type 0 where
  pub equal_fold : Text → Text → Bool
  pub parse_ip : Text → Option Text
  pub lookup_ip : Text → Option (List Text)
  pub is_loopback : Text → Bool
  pub is_link_local_unicast : Text → Bool
  pub is_link_local_multicast : Text → Bool
  pub is_interface_local_multicast : Text → Bool
  pub is_multicast : Text → Bool
  pub is_unspecified : Text → Bool
  pub is_private : Text → Bool

unfoldable pub is_unsafe_ip : NetPackage → Text → Bool
is_unsafe_ip net ip =
    if net.is_loopback ip
      || net.is_link_local_unicast ip
      || net.is_link_local_multicast ip
      || net.is_interface_local_multicast ip
      || net.is_multicast ip
      || net.is_unspecified ip
    then true
    else (if net.is_private ip then true else false)

any_unsafe : NetPackage → List Text → Bool
any_unsafe net [] = false
any_unsafe net (ip ∷ ips) = if is_unsafe_ip net ip then true else any_unsafe net ips

unfoldable pub is_unsafe_host : NetPackage → Text → Bool
unfolding any_unsafe
is_unsafe_host net host =
    if net.equal_fold host (codes "localhost") then true else elim (net.parse_ip host) [
      | some ip ↦ is_unsafe_ip net ip
      | none ↦ elim (net.lookup_ip host) [
        | none ↦ true
        | some ips ↦ if is_empty ips then true else any_unsafe net ips
      ]
    ]

-- The checks and the normalisation of a parsed URL; none: an error.
settle_url : NetPackage → UrlPackage → (allow_private : Bool) → Url → Option Text
settle_url net pkg allow_private u =
    let scheme = pkg.lower u.scheme in
    let host = pkg.hostname u in
    if not (same scheme (codes "http")) && not (same scheme (codes "https"))
    then none
    else (if is_empty host
        then none
        else (if u.has_user
            then none
            else (if (if allow_private then false else is_unsafe_host net host)
                then none
                else some (pkg.print (normalized pkg u)))))

unfoldable pub validate_mesh_gateway_url :
    NetPackage → UrlPackage → Text → (allow_private : Bool) → Option Text
unfolding settle_url
validate_mesh_gateway_url net pkg raw allow_private = elim (pkg.parse (pkg.trim_space raw)) [
  | none ↦ none
  | some u ↦ settle_url net pkg allow_private u
]

-- No method of the address class that the guard asks for says yes.
abbrev pub IsPublicIp : NetPackage → Text → Type 0
IsPublicIp net ip =
    (net.is_loopback ip ≡ false)
    × (net.is_link_local_unicast ip ≡ false)
    × (net.is_link_local_multicast ip ≡ false)
    × (net.is_interface_local_multicast ip ≡ false)
    × (net.is_multicast ip ≡ false)
    × (net.is_unspecified ip ≡ false)
    × (net.is_private ip ≡ false)

-- A literal public address, or a name with at least one address, all of them public.
abbrev pub IsPublicHost : NetPackage → Text → Type 0
IsPublicHost net host =
    (net.equal_fold host (codes "localhost") ≡ false)
    × (((ip : Text) × (net.parse_ip host ≡ some ip) × IsPublicIp net ip)
        ⊎ ((net.parse_ip host ≡ none)
            × ((ip : Text) × (ips : List Text) × (net.lookup_ip host ≡ some (ip ∷ ips))
                × All (IsPublicIp net) (ip ∷ ips))))

is_unsafe_ip_iff :
    (net : NetPackage) (ip : Text) → (is_unsafe_ip net ip ≡ false) ↔ IsPublicIp net ip
unfolding is_unsafe_ip
is_unsafe_ip_iff net ip = ground arith

any_unsafe_iff :
    (net : NetPackage) (ips : List Text) → (any_unsafe net ips ≡ false) ↔ All (IsPublicIp net) ips
unfolding any_unsafe
any_unsafe_iff net [] = (λ _. tt, λ _. refl)
any_unsafe_iff net (ip ∷ ips) = elim (Bool-cases (is_unsafe_ip net ip)) [
  | inl bad ↦ rw (bad, any_unsafe) (λ h. cc, λ (q, _). let e = (is_unsafe_ip_iff net ip).1 q in cc)
  | inr good ↦
      rw (good, any_unsafe)
        (
          λ h. ((is_unsafe_ip_iff net ip).0 good, (any_unsafe_iff net ips).0 h),
          λ (_, h). (any_unsafe_iff net ips).1 h,
        )
]

is_unsafe_host-IsPublicHost_complete :
    (net : NetPackage) (host : Text) → IsPublicHost net host → is_unsafe_host net host ≡ false
unfolding is_unsafe_host
is_unsafe_host-IsPublicHost_complete net host (e, inl (ip, p, q)) =
    rw (e, p, is_unsafe_host) ((is_unsafe_ip_iff net ip).1 q)
is_unsafe_host-IsPublicHost_complete net host (e, inr (p, (ip, ips, l, q))) =
    rw (e, p, is_unsafe_host) (rw (l, is_unsafe_host) ((any_unsafe_iff net (ip ∷ ips)).1 q))

looked_up :
    (net : NetPackage) (host : Text) (o : Option (List Text))
    → net.lookup_ip host ≡ o
    → elim o [ none ↦ true | some ips ↦ if is_empty ips then true else any_unsafe net ips ] ≡ false
    → (ip : Text) × (ips : List Text) × (net.lookup_ip host ≡ some (ip ∷ ips))
      × All (IsPublicIp net) (ip ∷ ips)
looked_up net host none l h = cc
looked_up net host (some []) l h = cc
looked_up net host (some (ip ∷ ips)) l h = (ip, ips, l, (any_unsafe_iff net (ip ∷ ips)).0 h)

is_unsafe_host-IsPublicHost_sound :
    (net : NetPackage) (host : Text) → is_unsafe_host net host ≡ false → IsPublicHost net host
unfolding is_unsafe_host
is_unsafe_host-IsPublicHost_sound net host h =
    elim (Bool-cases (net.equal_fold host (codes "localhost"))) [
      | inl bad ↦ let absurd : true ≡ false = rw (bad, is_unsafe_host) at h in cc
      | inr good ↦ elim (Option-cases (net.parse_ip host)) [
        | inl e ↦ (good, inr (e, looked_up net host _ refl (rw (good, e, is_unsafe_host) at h)))
        | inr (ip, e) ↦
            (good, inl (ip, e, (is_unsafe_ip_iff net ip).0 (rw (good, e, is_unsafe_host) at h)))
      ]
    ]

-- What an accepted URL is: the conditions on the parsed one, and the text that is kept.
abbrev pub IsAccepted : NetPackage → UrlPackage → (allow_private : Bool) → Url → Type 0
IsAccepted net pkg allow_private u =
    ((pkg.lower u.scheme ≡ codes "http") ⊎ (pkg.lower u.scheme ≡ codes "https"))
    × (pkg.hostname u ≢ [])
    × (u.has_user ≡ false)
    × ((allow_private ≡ true) ⊎ IsPublicHost net (pkg.hostname u))

-- The chain of checks, over their outcomes.
checks_iff :
    (http https empty user allow unsafe : Bool) (out kept : Text)
    → ((if not http && not https
          then none
          else (if empty
              then none
              else (if user
                  then none
                  else (if (if allow then false else unsafe) then none else some out))))
        ≡ some kept)
      ↔ (((http ≡ true) ⊎ (https ≡ true))
          × (empty ≡ false)
          × (user ≡ false)
          × ((allow ≡ true) ⊎ (unsafe ≡ false))
          × (kept ≡ out))
checks_iff http https empty user allow unsafe out kept = ground arith

is_empty_iff : (s : Text) → (is_empty s ≡ false) ↔ (s ≢ [])
is_empty_iff s = ground arith

settle_url_iff :
    (net : NetPackage) (pkg : UrlPackage) (allow_private : Bool) (u : Url) (kept : Text)
    → (settle_url net pkg allow_private u ≡ some kept)
      ↔ (IsAccepted net pkg allow_private u × (kept ≡ pkg.print (normalized pkg u)))
unfolding settle_url
settle_url_iff net pkg allow_private u kept =
    let gate =
      checks_iff (same (pkg.lower u.scheme) (codes "http"))
        (same (pkg.lower u.scheme) (codes "https")) (is_empty (pkg.hostname u)) u.has_user
        allow_private (is_unsafe_host net (pkg.hostname u)) (pkg.print (normalized pkg u)) kept in
    let http = same_iff (pkg.lower u.scheme) (codes "http") in
    let https = same_iff (pkg.lower u.scheme) (codes "https") in
    let named = is_empty_iff (pkg.hostname u) in
    (
      λ h.
          let (s, e, a, p, k) = gate.0 h in
          (
            (
              elim s [ inl l ↦ inl (http.0 l) | inr r ↦ inr (https.0 r) ],
              named.0 e,
              a,
              elim p [
                | inl l ↦ inl l
                | inr r ↦ inr (is_unsafe_host-IsPublicHost_sound net (pkg.hostname u) r)
              ],
            ),
            k,
          ),
      λ ((s, e, a, p), k). gate.1 (
        elim s [ inl l ↦ inl (http.1 l) | inr r ↦ inr (https.1 r) ],
        named.1 e,
        a,
        elim p [
          | inl l ↦ inl l
          | inr r ↦ inr (is_unsafe_host-IsPublicHost_complete net (pkg.hostname u) r)
        ],
        k,
      ),
    )

-- A gateway URL is accepted, and kept as the given text, exactly when it parses to a URL with
-- scheme http or https up to case, a host and no user, private gateways are allowed or the host is
-- a public literal address or a name other than localhost that resolves to at least one address and
-- to public ones only, and the text is its normal form.
pub validate_mesh_gateway_url_iff :
    (net : NetPackage) (pkg : UrlPackage) (raw : Text) (allow_private : Bool) (kept : Text)
    → (validate_mesh_gateway_url net pkg raw allow_private ≡ some kept) ↔ (
        (u : Url) × (pkg.parse (pkg.trim_space raw) ≡ some u)
        × IsAccepted net pkg allow_private u
        × (kept ≡ pkg.print (normalized pkg u)))
unfolding validate_mesh_gateway_url
validate_mesh_gateway_url_iff net pkg raw allow_private kept = (
  λ h. elim (Option-cases (pkg.parse (pkg.trim_space raw))) [
    | inl e ↦ let absurd : none ≡ some kept = rw (e, validate_mesh_gateway_url) at h in cc
    | inr (u, e) ↦
        let (a, k) =
          (settle_url_iff net pkg allow_private u kept).0
            (rw (e, validate_mesh_gateway_url) at h) in
        (u, e, a, k)
  ],
  λ (u, p, a, k).
      rw (p, validate_mesh_gateway_url) ((settle_url_iff net pkg allow_private u kept).1 (a, k)),
)
