-- ===== src/Discovery/Spec.antt =====
-- The abstract view of discovery.go: the CIDs that rows mention, and the first valid item of each.
use pevo_pinner.Prelude.{
  ◌+◌, ◌≡◌, refl, sym, Bool, true, not, Option, none, some, List, [], ◌∷◌, ◌++◌, map, append_assoc,
  append-nil, length, length-append, keep, All, Bool-cases, inl, inr, arith, if◌then◌else◌,
}
use pevo_pinner.Prelude.Text.{Text, is_empty, same_iff, has}
use pevo_pinner.Cid.{validate_cid}
use pevo_pinner.Discovery.Scan.{find_all}
use pevo_pinner.Discovery.{
  DiscoveredItem, SupplementaryFile, DiscoveryRow, paper_item, supplementary_item, inline_item,
  Extraction, admit, ScannedRow, row_of,
}

abbrev pub is_valid : DiscoveredItem → Bool
is_valid i = validate_cid i.cid

abbrev pub is_invalid : DiscoveredItem → Bool
is_invalid i = not (validate_cid i.cid)

abbrev pub papers : DiscoveryRow → List DiscoveredItem
papers row = if is_empty row.ipfs_cid then [] else paper_item row ∷ []

abbrev pub supplementaries : DiscoveryRow → List SupplementaryFile → List DiscoveredItem
supplementaries row sfs = map (supplementary_item row) (keep (λ sf. not (is_empty sf.cid)) sfs)

abbrev pub decoded : Option (List SupplementaryFile) → List SupplementaryFile
decoded none = []
decoded (some sfs) = sfs

-- Every mention of a CID in a row, in the order paper, supplementary files, inline images.
unfoldable pub candidates :
    (Text → Option (List SupplementaryFile)) → DiscoveryRow → List DiscoveredItem
candidates unmarshal_supp row =
    papers row
    ++ ((if is_empty row.supp_json
          then []
          else supplementaries row (decoded (unmarshal_supp row.supp_json)))
        ++ (if is_empty row.body then [] else map (inline_item row) (find_all 0 row.body)))

-- The mentions of all rows that could be scanned.
unfoldable pub all_candidates :
    (Text → Option (List SupplementaryFile)) → List (Option ScannedRow) → List DiscoveredItem
unfolding candidates
all_candidates u [] = []
all_candidates u (none ∷ rs) = all_candidates u rs
all_candidates u (some r ∷ rs) = candidates u (row_of r) ++ all_candidates u rs

-- The first item of each CID that is not in `seen`.
unfoldable pub firsts : List Text → List DiscoveredItem → List DiscoveredItem
firsts seen [] = []
firsts seen (i ∷ is) = if has i.cid seen then firsts seen is else i ∷ firsts (i.cid ∷ seen) is

-- The keys once the items are recorded.
pub mark : List Text → List DiscoveredItem → List Text
mark seen [] = seen
mark seen (i ∷ is) = mark (if has i.cid seen then seen else i.cid ∷ seen) is

abbrev pub AllValid : List Text → Type 0
AllValid = All (λ c. validate_cid c ≡ true)

firsts-append :
    (seen : List Text) (xs ys : List DiscoveredItem)
    → firsts seen (xs ++ ys) ≡ firsts seen xs ++ firsts (mark seen xs) ys
unfolding firsts mark
firsts-append seen [] ys = refl
firsts-append seen (x ∷ xs) ys =
    ground (arith, firsts-append seen xs ys, firsts-append (x.cid ∷ seen) xs ys)

mark-append :
    (seen : List Text) (xs ys : List DiscoveredItem) → mark seen (xs ++ ys) ≡ mark (mark seen xs) ys
unfolding mark
mark-append seen [] ys = refl
mark-append seen (x ∷ xs) ys = mark-append (if has x.cid seen then seen else x.cid ∷ seen) xs ys

keep-append :
    (p : DiscoveredItem → Bool) (xs ys : List DiscoveredItem)
    → keep p (xs ++ ys) ≡ keep p xs ++ keep p ys
keep-append p [] ys = refl
keep-append p (x ∷ xs) ys = ground (arith, keep-append p xs ys)

-- `y` is `x` once the mentions `is` have been gone through.
pub record Collects (is : List DiscoveredItem) (x y : Extraction) : Type 0 where
  pub items : y.items ≡ x.items ++ firsts x.seen (keep is_valid is)
  pub dropped : y.dropped ≡ x.dropped + length (keep is_invalid is)
  pub seen : y.seen ≡ mark x.seen (keep is_valid is)
  pub valid : AllValid y.seen

pub Collects-nil : (x : Extraction) → AllValid x.seen → Collects [] x x
unfolding firsts mark
Collects-nil x v = record {
  items = sym (append-nil x.items);
  dropped = omega arith;
  seen = refl;
  valid = v;
}

pub Collects-append :
    {x y z : Extraction} (is js : List DiscoveredItem)
    → Collects is x y
    → Collects js y z
    → Collects (is ++ js) x z
Collects-append {x} {y} {z} is js p q = record {
  items = cc (
    keep-append is_valid is js,
    firsts-append x.seen (keep is_valid is) (keep is_valid js),
    append_assoc x.items (firsts x.seen (keep is_valid is)) (firsts y.seen (keep is_valid js)),
  );
  dropped = ground (
    arith,
    keep-append is_invalid is js,
    length-append (keep is_invalid is) (keep is_invalid js),
    p.dropped,
    q.dropped,
  );
  seen = cc (keep-append is_valid is js, mark-append x.seen (keep is_valid is) (keep is_valid js));
  valid = q.valid;
}

has-AllValid :
    (c : Text) (seen : List Text) → AllValid seen → has c seen ≡ true → validate_cid c ≡ true
unfolding has
has-AllValid c [] v h = cc
has-AllValid c (x ∷ seen) (p, v) h = ground (arith, has-AllValid c seen v, same_iff x c)

-- One mention: skipped if its CID is known, else admitted.
pub admit-Collects :
    (i : DiscoveredItem) (x : Extraction)
    → AllValid x.seen
    → Collects (i ∷ []) x (if has i.cid x.seen then x else admit i x)
unfolding admit firsts mark
admit-Collects i x v = elim (Bool-cases (has i.cid x.seen)) [
  | inl known ↦ rw known (record {
    items = rw (has-AllValid i.cid x.seen v known) (rw (known, firsts) (sym (append-nil _)));
    dropped = rw (has-AllValid i.cid x.seen v known) (omega arith);
    seen = rw (has-AllValid i.cid x.seen v known) (rw known);
    valid = v;
  })
  | inr new ↦ elim (Bool-cases (validate_cid i.cid)) [
    | inl ok ↦
        rw (new, admit)
          (rw ok (record {
            items = rw ok (rw (new, firsts) refl);
            dropped = rw ok (omega arith);
            seen = rw ok (rw new refl);
            valid = (ok, v);
          }))
    | inr bad ↦
        rw (new, admit)
          (rw bad (record {
            items = rw bad (sym (append-nil _));
            dropped = rw bad (omega arith);
            seen = rw bad refl;
            valid = v;
          }))
  ]
]
