-- ===== src/Node/Guard.antt =====
-- gatewayGuard: what is forwarded under `/ipfs/`, and the pinned-only contract with Pin and Unpin.
use pevo_pinner.Prelude.{
  ◌≡◌, refl, ◌↔◌, inl, inr, true, List, [], ◌∷◌, ◌++◌, arith, if◌then◌else◌, All,
}
use pevo_pinner.Prelude.Text.{Text, codes, is_empty, has, strip_prefix-append, before}
use pevo_pinner.Cid.{validate_cid}
use pevo_pinner.Cid.Shape.{IsAlnum, validate_cid-All-IsAlnum}
use pevo_pinner.Node.{EmbeddedNode, gateway_guard, forwarded, missing_cid, bad_cid, not_pinned}

before-append : (c rest : Text) → All IsAlnum c → before b'/' (c ++ b'/' ∷ rest) ≡ c
unfolding before
before-append [] rest h = refl
before-append (x ∷ c) rest (q, h) = ground (arith, before-append c rest h)

pub validate_cid-nil : validate_cid [] ≡ true → ⊥
validate_cid-nil v = elim (validate_cid-All-IsAlnum [] v).0 [
  | inl e ↦ omega (arith, e)
  | inr e ↦ omega (arith, e)
]

verdict_iff :
    (raw : Text) (pins : List Text)
    → ((if is_empty raw
          then missing_cid
          else (if validate_cid raw
              then (if has raw pins then forwarded else not_pinned)
              else bad_cid))
        ≡ forwarded)
      ↔ ((validate_cid raw ≡ true) × (has raw pins ≡ true))
verdict_iff [] pins = (λ h. cc, λ (v, p). elim (validate_cid-nil v) [ ])
verdict_iff (c ∷ s) pins = ground arith

-- A request under /ipfs/ is forwarded exactly when its first path component is a valid CID that is
-- pinned.
pub gateway_guard_lem :
    (n : EmbeddedNode) (rest : Text)
    → (gateway_guard n (codes "/ipfs/" ++ rest) ≡ forwarded)
      ↔ ((validate_cid (before b'/' rest) ≡ true) × (has (before b'/' rest) n.pins ≡ true))
unfolding gateway_guard
gateway_guard_lem n rest =
    rw (strip_prefix-append (codes "/ipfs/") rest, gateway_guard)
      (verdict_iff (before b'/' rest) n.pins)

-- A request for a path below a valid CID is forwarded if the CID is pinned, and answered with not
-- pinned if it is not.
pub gateway_guard-append :
    (n : EmbeddedNode) (c rest : Text)
    → validate_cid c ≡ true
    → gateway_guard n (codes "/ipfs/" ++ (c ++ b'/' ∷ rest))
      ≡ (if has c n.pins then forwarded else not_pinned)
unfolding gateway_guard
gateway_guard-append n c rest v =
    rw (strip_prefix-append (codes "/ipfs/") (c ++ b'/' ∷ rest), gateway_guard)
      (rw (before-append c rest (validate_cid-All-IsAlnum c v).1) (filled c v))
  where
    filled :
        (c : Text)
        → validate_cid c ≡ true
        → (if is_empty c
            then missing_cid
            else (if validate_cid c
                then (if has c n.pins then forwarded else not_pinned)
                else bad_cid))
          ≡ (if has c n.pins then forwarded else not_pinned)
    filled [] v = elim (validate_cid-nil v) [ ]
    filled (x ∷ c) v = rw v refl
