-- ===== src/Mesh/Fallback.antt =====
-- What heartbeats of strangers can bring into the chain of fallback gateways.
use pevo_pinner.Prelude.{
  ◌≡◌, ◌⊎◌, inl, inr, Bool, true, false, some, List, [], ◌∷◌, ◌++◌, map, append_assoc, All-map,
  arith, Bool-cases, All, All-append, All-split,
}
use pevo_pinner.Prelude.Text.{Text, is_empty, has, same_refl, has-append}
use pevo_pinner.Prelude.Firsts.{firsts_by-All}
use pevo_pinner.Fetch.Url.{Url, normalized, normalize_fallback_url}
use pevo_pinner.Fetch.Chain.{
  compose_static_chain, assemble_fallback_chain, assemble_fallback_chain_lem,
  default_fallback_gateways, static_head, key, usable,
}
use pevo_pinner.Mesh.Url.{IsAccepted, validate_mesh_gateway_url_iff}
use pevo_pinner.Mesh.{MeshManager, MeshPeer, Outside, known_peers}
use pevo_pinner.Mesh.Peers.{Peers}
use pevo_pinner.Mesh.Invariant.{IsGood, IsGoodEntry, IsVetted}

abbrev pub gateway_of : MeshPeer → Text
gateway_of p = p.gateway_url

-- The URL as kept of a parsed URL that the guard of the mesh accepts.
abbrev pub IsGuarded : Outside → (allow_private : Bool) → Text → Type 0
IsGuarded out allow_private kept =
    (u : Url) × IsAccepted out.net out.url allow_private u
    × (kept ≡ out.url.print (normalized out.url u))

-- One of the URLs of the static chain.
abbrev pub IsConfigured : (main_url : Text) → List Text → Text → Type 0
IsConfigured main_url extra u =
    has u (static_head main_url extra ++ default_fallback_gateways) ≡ true

module _ (out : Outside) (allow_private : Bool) (configured : List Text) where
  -- What holds of each URL that goes into the chain, and of each that stays.
  abbrev IsOffered : Text → Type 0
  IsOffered u = (has u configured ≡ true) ⊎ IsVetted out allow_private u

  abbrev IsTrusted : Text → Type 0
  IsTrusted u = (has u configured ≡ true) ⊎ IsGuarded out allow_private u

  settle : (u : Text) → is_empty (key out.url u) ≡ false → IsOffered u → IsTrusted u
  unfolding normalize_fallback_url
  settle u good (inl e) = inl e
  settle u good (inr (inl e)) =
      let absurd : true ≡ false = rw (e, normalize_fallback_url) at good in cc
  settle u good (inr (inr (raw, e))) =
      let (v, p, a, k) = (validate_mesh_gateway_url_iff out.net out.url raw allow_private u).0 e in
      inr (v, a, k)

  usable-All-IsTrusted : (us : List Text) → All IsOffered us → All IsTrusted (usable out.url us)
  usable-All-IsTrusted [] h = tt
  usable-All-IsTrusted (u ∷ us) (q, h) = elim (Bool-cases (is_empty (key out.url u))) [
    | inl bad ↦ rw bad (usable-All-IsTrusted us h)
    | inr good ↦ rw good (settle u good q, usable-All-IsTrusted us h)
  ]

own_members : (us vs : List Text) → All (λ u. has u (vs ++ us) ≡ true) us
unfolding has
own_members [] vs = tt
own_members (u ∷ us) vs = (
  ground (arith, has-append u vs (u ∷ us), same_refl u),
  rw (append_assoc vs (u ∷ []) us) at (own_members us (vs ++ u ∷ [])),
)

module _ (out : Outside) (m : MeshManager) (good : IsGood out m) where
  gateways-All-IsVetted :
      (ps : Peers)
      → All (IsGoodEntry out m) ps
      → All (IsVetted out m.allow_private_gateways) (map gateway_of (map (λ (k, p). p) ps))
  gateways-All-IsVetted [] h = tt
  gateways-All-IsVetted ((k, p) ∷ ps) ((i, o, l, v), h) = (v, gateways-All-IsVetted ps h)

  chain-All-IsConfigured :
      (main_url : Text) (extra gs : List Text)
      → All (IsVetted out m.allow_private_gateways) gs
      → All
          (λ u. IsConfigured main_url extra u ⊎ IsGuarded out m.allow_private_gateways u)
          (assemble_fallback_chain out.url (compose_static_chain main_url extra) (some gs))
  unfolding assemble_fallback_chain compose_static_chain
  chain-All-IsConfigured main_url extra [] h =
      All-map (λ u c. inl c) _
        (own_members (static_head main_url extra ++ default_fallback_gateways) [])
  chain-All-IsConfigured main_url extra (g ∷ gs) (q, h) =
      let fixed = static_head main_url extra in
      let (front, behind) =
        All-split (IsConfigured main_url extra) fixed default_fallback_gateways
          (own_members (fixed ++ default_fallback_gateways) []) in
      let Offered : Text → Type 0 =
        IsOffered out m.allow_private_gateways (fixed ++ default_fallback_gateways) in
      rw ((assemble_fallback_chain_lem out.url main_url extra g gs).0) (
        firsts_by-All (key out.url) _ [] _ (
          usable-All-IsTrusted out m.allow_private_gateways (fixed ++ default_fallback_gateways)
            (fixed ++ ((g ∷ gs) ++ default_fallback_gateways))
            (All-append Offered fixed ((g ∷ gs) ++ default_fallback_gateways)
              (All-map (λ u c. inl c) fixed front)
              (All-append Offered (g ∷ gs) default_fallback_gateways
                (All-map (λ u v. inr v) (g ∷ gs) (q, h))
                (All-map {P = IsConfigured main_url extra} {Q = Offered} (λ u c. inl c)
                  default_fallback_gateways behind)))))

  -- With the gateways of any cache that satisfies the invariant, each URL of the fallback chain is
  -- one of the static chain, or the normal form of an http or https URL with a host and no user
  -- that, unless private gateways are allowed, names only public addresses when it is checked.
  pub assemble_fallback_chain-All-IsConfigured :
      (main_url : Text) (extra : List Text)
      → All
          (λ u. IsConfigured main_url extra u ⊎ IsGuarded out m.allow_private_gateways u)
          (assemble_fallback_chain out.url
            (compose_static_chain main_url extra)
            (some (map gateway_of (known_peers m))))
  unfolding known_peers
  assemble_fallback_chain-All-IsConfigured main_url extra =
      let (small, d, all) = good in
      chain-All-IsConfigured main_url extra _ (gateways-All-IsVetted m.peers all)
