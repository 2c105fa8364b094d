-- ===== src/Discovery/Scan.antt =====
-- discovery.go: `ipfsCIDRegex.FindAllStringSubmatch`, the inline-image links of a post body.
use pevo_pinner.Prelude.{
  ℕ, zero, suc, ◌+◌, ◌≡◌, refl, ap, ◌∙◌, ◌≢◌, Option, none, some, List, [], ◌∷◌, ◌++◌, map,
  append_assoc, append-nil, length, length-append, All, Option-cases, inl, inr, arith, ◌==◌,
  if◌then◌else◌,
}
use pevo_pinner.Prelude.Text.{Text, codes, strip_prefix}
use pevo_pinner.Cid.{cid_group}
use pevo_pinner.Cid.Shape.{IsCid, Begins, cid_group-Begins, cid_group-append}

-- The byte after a match of the group must be a slash.
closing_slash : Option (Text × Text) → Option Text
closing_slash none = none
closing_slash (some (c, [])) = none
closing_slash (some (c, x ∷ rest)) = if x == b'/' then some c else none

-- `/ipfs/(...)/` at the head of a text: the group.
link_at : Text → Option Text
link_at s = elim (strip_prefix (codes "/ipfs/") s) [
  | none ↦ none
  | some rest ↦ closing_slash (cid_group rest)
]

-- Leftmost matches that do not overlap. The first argument counts the bytes still to skip: a match
-- has seven more bytes than its CID.
unfoldable pub find_all : ℕ → Text → List Text
unfolding link_at closing_slash cid_group strip_prefix
find_all skip [] = []
find_all (suc k) (x ∷ s) = find_all k s
find_all zero (x ∷ s) = elim (link_at (x ∷ s)) [
  | none ↦ find_all zero s
  | some c ↦ c ∷ find_all (length c + 6) s
]

closing_slash-IsCid :
    (s : Text) (o : Option (Text × Text)) (c : Text)
    → Begins s o
    → closing_slash o ≡ some c
    → IsCid c
unfolding closing_slash
closing_slash-IsCid s none c b e = cc
closing_slash-IsCid s (some (m, [])) c b e = cc
closing_slash-IsCid s (some (m, x ∷ rest)) c b e =
    let same_cid : m ≡ c = ground arith in rw (← same_cid) b.1

link_at-IsCid : (s c : Text) → link_at s ≡ some c → IsCid c
unfolding link_at
link_at-IsCid s c e = elim (Option-cases (strip_prefix (codes "/ipfs/") s)) [
  | inl miss ↦ absurd (cc (rw (miss, link_at) at e))
  | inr (rest, hit) ↦
      closing_slash-IsCid rest (cid_group rest) c (cid_group-Begins rest) (rw (hit, link_at) at e)
]

-- Every link that the scan finds has the shape of a CID.
pub find_all-IsCid : (skip : ℕ) (s : Text) → All IsCid (find_all skip s)
unfolding find_all
find_all-IsCid zero [] = tt
find_all-IsCid (suc k) [] = tt
find_all-IsCid (suc k) (x ∷ s) = find_all-IsCid k s
find_all-IsCid zero (x ∷ s) = elim (Option-cases (link_at (x ∷ s))) [
  | inl miss ↦ rw (miss, find_all) (find_all-IsCid zero s)
  | inr (c, hit) ↦ rw (hit, find_all) (link_at-IsCid (x ∷ s) c hit, find_all-IsCid (length c + 6) s)
]

pub find_all_skip : (p s : Text) → find_all (length p) (p ++ s) ≡ find_all 0 s
unfolding find_all
find_all_skip [] s = refl
find_all_skip (x ∷ p) s = find_all_skip p s

abbrev pub NoSlash : Text → Type 0
NoSlash = All (λ c. c ≢ b'/')

-- A post body, as slash-free text with links in between.
abbrev pub render : List (Text × Text) → Text → Text
render [] tail = tail
render ((gap, cid) ∷ links) tail =
    gap ++ (codes "/ipfs/" ++ (cid ++ (codes "/" ++ render links tail)))

link_at_miss : (x : ℕ) (s : Text) → x ≢ b'/' → link_at (x ∷ s) ≡ none
unfolding link_at strip_prefix
link_at_miss x s h = ground arith

find_all_nil : find_all 0 [] ≡ []
unfolding find_all
find_all_nil = refl

find_all_gap : (gap s : Text) → NoSlash gap → find_all 0 (gap ++ s) ≡ find_all 0 s
unfolding find_all
find_all_gap [] s h = refl
find_all_gap (x ∷ gap) s (p, h) = rw (link_at_miss x (gap ++ s) p, find_all) (find_all_gap gap s h)

link_at_link :
    (cid rest : Text)
    → IsCid cid
    → link_at (codes "/ipfs/" ++ (cid ++ (codes "/" ++ rest))) ≡ some cid
unfolding link_at strip_prefix closing_slash
link_at_link cid rest h = rw (cid_group-append cid (codes "/" ++ rest) h) refl

find_all_link :
    (cid rest : Text)
    → IsCid cid
    → find_all 0 (codes "/ipfs/" ++ (cid ++ (codes "/" ++ rest))) ≡ cid ∷ find_all 0 rest
unfolding find_all
find_all_link cid rest h =
    let p = codes "ipfs/" ++ (cid ++ codes "/") in
    let l : length cid + 6 ≡ length p = omega (arith, length-append {0} cid (codes "/")) in
    rw (link_at_link cid rest h, find_all)
      (ap (◌∷◌ cid) (rw (l, ← append_assoc cid (codes "/") rest) (find_all_skip p rest)))

-- A post body made of slash-free text and of links /ipfs/CID/ with CIDs of valid shape yields
-- exactly the CIDs of its links, in order.
pub find_all-render :
    (links : List (Text × Text)) (tail : Text)
    → All (λ l. NoSlash l.0 × IsCid l.1) links
    → NoSlash tail
    → find_all 0 (render links tail) ≡ map (λ l. l.1) links
find_all-render [] tail h k = rw (append-nil tail) at (find_all_gap tail [] k ∙ find_all_nil)
find_all-render ((gap, cid) ∷ links) tail ((plain, shape), h) k =
    find_all_gap gap _ plain
    ∙ find_all_link cid (render links tail) shape
    ∙ ap (◌∷◌ cid) (find_all-render links tail h k)
