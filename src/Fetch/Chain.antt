-- ===== src/Fetch/Chain.antt =====
-- ipfsnode_fetch.go: assembleFallbackChain, and the part of NewEmbeddedNode that lays the static
-- chain out.
use pevo_pinner.Prelude.{
  ℕ, ◌≡◌, refl, ap, ◌∙◌, inl, inr, false, not, Option, none, some, List, [], ◌∷◌, ◌++◌, append-nil,
  append_assoc, map, length, take, drop, take-length-append, drop-length-append, length-append,
  keep, ltb, Bool-cases, arith, if◌then◌else◌,
}
use pevo_pinner.Prelude.Text.{Text, codes, is_empty, has, IsDistinct}
use pevo_pinner.Prelude.Firsts.{firsts_by, mark_by, firsts_by-IsDistinct}
use pevo_pinner.Fetch.Url.{UrlPackage, normalize_fallback_url}

abbrev pub default_fallback_gateways : List Text
default_fallback_gateways =
    codes "https://ipfs.io"
    ∷ codes "https://dweb.link"
    ∷ codes "https://cloudflare-ipfs.com"
    ∷ codes "https://gateway.pinata.cloud"
    ∷ []

pub record StaticChain : Type 0 where
  pub fallback_gateways : List Text
  pub static_head_len : ℕ

-- The head (PEvO main if set, then the operator's gateways), its length, and the public defaults.
unfoldable pub compose_static_chain : (main_url : Text) → List Text → StaticChain
compose_static_chain main_url extra =
    let head = (if is_empty main_url then [] else main_url ∷ []) ++ extra in
    record { fallback_gateways = head ++ default_fallback_gateways; static_head_len = length head }

abbrev pub static_head : (main_url : Text) → List Text → List Text
static_head main_url extra = (if is_empty main_url then [] else main_url ∷ []) ++ extra

-- The variables of the closure `add`.
pub record Chained : Type 0 where
  pub seen : List Text
  pub out : List Text

module _ (pkg : UrlPackage) where
  add : Text → Chained → Chained
  add u st =
      let k = normalize_fallback_url pkg u in
      if is_empty k
      then st
      else (if has k st.seen then st else record { seen = k ∷ st.seen; out = st.out ++ u ∷ [] })

  add_all : List Text → Chained → Chained
  add_all [] st = st
  add_all (u ∷ us) st = add_all us (add u st)

  -- `peers` holds the gateway URLs of `KnownPeers()`, in the order of that snapshot; none: no mesh.
  unfoldable pub assemble_fallback_chain : StaticChain → (peers : Option (List Text)) → List Text
  unfolding add add_all
  assemble_fallback_chain c none = c.fallback_gateways
  assemble_fallback_chain c (some []) = c.fallback_gateways
  assemble_fallback_chain c (some (p ∷ peers)) =
      let head_end =
        if ltb (length c.fallback_gateways) c.static_head_len
        then length c.fallback_gateways
        else c.static_head_len in
      (add_all (drop head_end c.fallback_gateways) (
        add_all (p ∷ peers)
          (add_all (take head_end c.fallback_gateways) (record { seen = []; out = [] })))).out

  abbrev pub key : Text → Text
  key u = normalize_fallback_url pkg u

  -- The entries that can be parsed to a URL.
  abbrev pub usable : List Text → List Text
  usable us = keep (λ u. not (is_empty (key u))) us

  add_all_lem :
      (us : List Text) (st : Chained)
      → add_all us st ≡ record {
        seen = mark_by key st.seen (usable us);
        out = st.out ++ firsts_by key st.seen (usable us);
      }
  unfolding add_all mark_by firsts_by add
  add_all_lem [] st = rw (append-nil st.out) refl
  add_all_lem (u ∷ us) st = elim (Bool-cases (is_empty (key u))) [
    | inl bad ↦ rw (bad, add) (add_all_lem us st)
    | inr good ↦ elim (Bool-cases (has (key u) st.seen)) [
      | inl known ↦ rw (good, add) (rw (known, mark_by, firsts_by) (add_all_lem us st))
      | inr new ↦
          rw (good, add)
            (rw (new, mark_by, firsts_by)
              (add_all_lem us (record { seen = key u ∷ st.seen; out = st.out ++ u ∷ [] })
                ∙ rw (append_assoc st.out (u ∷ []) (firsts_by key (key u ∷ st.seen) (usable us)))
                    refl))
    ]
  ]

  add_all-append :
      (us vs : List Text) (st : Chained) → add_all vs (add_all us st) ≡ add_all (us ++ vs) st
  unfolding add_all
  add_all-append [] vs st = refl
  add_all-append (u ∷ us) vs st = add_all-append us vs (add u st)

  splice :
      (head tail : List Text) (p : Text) (peers : List Text)
      → assemble_fallback_chain
          (record { fallback_gateways = head ++ tail; static_head_len = length head })
          (some (p ∷ peers))
        ≡ firsts_by key [] (usable (head ++ ((p ∷ peers) ++ tail)))
  unfolding assemble_fallback_chain
  splice head tail p peers =
      let inside : ltb (length (head ++ tail)) (length head) ≡ false =
        ground (arith, length-append {0} head tail) in
      rw (inside, assemble_fallback_chain)
        (rw (take-length-append head tail, drop-length-append head tail)
          (rw (add_all-append (p ∷ peers) tail, add_all-append head ((p ∷ peers) ++ tail))
            (ap (λ st. st.out)
              (add_all_lem (head ++ ((p ∷ peers) ++ tail)) (record { seen = []; out = [] })))))

  -- With at least one mesh peer, the fallback chain is the first URL of each normal form among the
  -- PEvO main gateway, the extra gateways, those of the mesh and the public defaults, in that order
  -- and without the ones that cannot be parsed, so that no normal form occurs twice.
  pub assemble_fallback_chain_lem :
      (main_url : Text) (extra : List Text) (p : Text) (peers : List Text)
      → (assemble_fallback_chain (compose_static_chain main_url extra) (some (p ∷ peers))
          ≡ firsts_by key []
              (usable (static_head main_url extra ++ ((p ∷ peers) ++ default_fallback_gateways))))
        × IsDistinct (
            map key
              (assemble_fallback_chain (compose_static_chain main_url extra) (some (p ∷ peers))))
  unfolding compose_static_chain
  assemble_fallback_chain_lem main_url extra p peers =
      let e = splice (static_head main_url extra) default_fallback_gateways p peers in
      (e, rw e (firsts_by-IsDistinct key [] _))
