-- ===== src/Discovery/Refinement.antt =====
-- discovery.go: the loops of the extraction and of the refresh collect exactly the mentions.
use pevo_pinner.Prelude.{
  ◌≡◌, ap, Bool, true, false, not, Option, none, some, List, [], ◌∷◌, ◌++◌, map, length, keep,
  Bool-cases, Option-cases, inl, inr, arith, if◌then◌else◌,
}
use pevo_pinner.Prelude.Text.{Text, is_empty, has}
use pevo_pinner.Discovery.Scan.{find_all}
use pevo_pinner.Discovery.{
  SupplementaryFile, DiscoveryRow, paper_item, supplementary_item, inline_item, Extraction, admit,
  add_paper, add_supplementary, supplementary_loop, add_inline, inline_loop, ScannedRow, row_of,
  rows, Discovery, refreshed, add_supp_json, add_body, extract_items_from_row, add_row, row_loop,
  refresh,
}
use pevo_pinner.Discovery.Spec.{
  is_valid, is_invalid, papers, supplementaries, decoded, candidates, all_candidates, firsts,
  AllValid, Collects, Collects-nil, Collects-append, admit-Collects,
}

add_paper-Collects :
    (row : DiscoveryRow) (x : Extraction)
    → AllValid x.seen
    → Collects (papers row) x (add_paper row x)
unfolding add_paper
add_paper-Collects row x v = elim (Bool-cases (is_empty row.ipfs_cid)) [
  | inl e ↦ rw e (Collects-nil x v)
  | inr e ↦ rw e (swap (has row.ipfs_cid x.seen) (admit-Collects (paper_item row) x v))
]
  where
    swap :
        (b : Bool)
        → Collects (paper_item row ∷ []) x (if b then x else admit (paper_item row) x)
        → Collects (paper_item row ∷ []) x (if not b then admit (paper_item row) x else x)
    swap true c = c
    swap false c = c

supplementary_loop-Collects :
    (row : DiscoveryRow) (sfs : List SupplementaryFile) (x : Extraction)
    → AllValid x.seen
    → Collects (supplementaries row sfs) x (supplementary_loop row sfs x)
unfolding supplementary_loop add_supplementary
supplementary_loop-Collects row [] x v = Collects-nil x v
supplementary_loop-Collects row (sf ∷ sfs) x v = elim (Bool-cases (is_empty sf.cid)) [
  | inl e ↦ rw e (supplementary_loop-Collects row sfs x v)
  | inr e ↦
      let step = admit-Collects (supplementary_item row sf) x v in
      rw e (
        Collects-append (supplementary_item row sf ∷ []) (supplementaries row sfs) step
          (supplementary_loop-Collects row sfs _ step.valid))
]

inline_loop-Collects :
    (row : DiscoveryRow) (cs : List Text) (x : Extraction)
    → AllValid x.seen
    → Collects (map (inline_item row) cs) x (inline_loop row cs x)
unfolding inline_loop add_inline
inline_loop-Collects row [] x v = Collects-nil x v
inline_loop-Collects row (c ∷ cs) x v =
    let step = admit-Collects (inline_item row c) x v in
    Collects-append (inline_item row c ∷ []) (map (inline_item row) cs) step
      (inline_loop-Collects row cs _ step.valid)

module _ (u : Text → Option (List SupplementaryFile)) where
  add_supp_json-Collects :
      (row : DiscoveryRow) (x : Extraction)
      → AllValid x.seen
      → Collects
          (if is_empty row.supp_json then [] else supplementaries row (decoded (u row.supp_json)))
          x
          (add_supp_json u row x)
  unfolding add_supp_json
  add_supp_json-Collects row x v = elim (Bool-cases (is_empty row.supp_json)) [
    | inl e ↦ rw e (Collects-nil x v)
    | inr e ↦ elim (Option-cases (u row.supp_json)) [
      | inl missing ↦ rw (e, missing, add_supp_json) (Collects-nil x v)
      | inr (sfs, found) ↦ rw (e, found, add_supp_json) (supplementary_loop-Collects row sfs x v)
    ]
  ]

  add_body-Collects :
      (row : DiscoveryRow) (x : Extraction)
      → AllValid x.seen
      → Collects
          (if is_empty row.body then [] else map (inline_item row) (find_all 0 row.body))
          x
          (add_body u row x)
  unfolding add_body
  add_body-Collects row x v = elim (Bool-cases (is_empty row.body)) [
    | inl e ↦ rw e (Collects-nil x v)
    | inr e ↦ rw e (inline_loop-Collects row (find_all 0 row.body) x v)
  ]

  extract_items_from_row-Collects :
      (row : DiscoveryRow) (seen : List Text)
      → AllValid seen
      → Collects
          (candidates u row)
          (record { items = []; dropped = 0; seen = seen })
          (extract_items_from_row u row seen)
  unfolding extract_items_from_row candidates
  extract_items_from_row-Collects row seen v =
      let p = add_paper-Collects row _ v in
      let s = add_supp_json-Collects row _ p.valid in
      Collects-append _ _ p (Collects-append _ _ s (add_body-Collects row _ s.valid))

  row_loop-Collects :
      (rs : List (Option ScannedRow)) (x : Extraction)
      → AllValid x.seen
      → Collects (all_candidates u rs) x (row_loop u rs x)
  unfolding row_loop add_row all_candidates
  row_loop-Collects [] x v = Collects-nil x v
  row_loop-Collects (none ∷ rs) x v = row_loop-Collects rs x v
  row_loop-Collects (some r ∷ rs) x v =
      let row = extract_items_from_row-Collects (row_of r) x.seen v in
      let step : Collects (candidates u (row_of r)) x (add_row u (some r) x) = record {
        items = ap (◌++◌ x.items) row.items;
        dropped = omega (arith, row.dropped);
        seen = row.seen;
        valid = row.valid;
      } in
      Collects-append (candidates u (row_of r)) (all_candidates u rs) step
        (row_loop-Collects rs _ step.valid)

  -- For one row and a set of known CIDs that are all valid, the kept items are the first items of
  -- the valid CIDs that the row mentions and the set lacks, and the dropped count is the number of
  -- invalid mentions in the row.
  pub extract_items_from_row_lem :
      (row : DiscoveryRow) (seen : List Text)
      → AllValid seen
      → ((extract_items_from_row u row seen).items ≡ firsts seen (keep is_valid (candidates u row)))
        × ((extract_items_from_row u row seen).dropped
            ≡ length (keep is_invalid (candidates u row)))
  extract_items_from_row_lem row seen v =
      let c = extract_items_from_row-Collects row seen v in (c.items, omega (arith, c.dropped))

  -- A refresh whose query succeeds and whose rows can be read to the end stores, and hands to the
  -- callback, the first item of each valid CID that a scanned row mentions, in the order of the
  -- mentions, and counts every mention of an invalid CID as dropped.
  pub refresh_lem :
      (d : Discovery) (rs : List (Option ScannedRow))
      → let found = firsts [] (keep is_valid (all_candidates u rs)) in
        refresh u d (rows rs false) ≡ (
          record { items = found },
          refreshed found (length (keep is_invalid (all_candidates u rs))),
        )
  unfolding refresh
  refresh_lem d rs =
      let c = row_loop-Collects rs (record { items = []; dropped = 0; seen = [] }) tt in
      let n : (row_loop u rs (record { items = []; dropped = 0; seen = [] })).dropped
          ≡ length (keep is_invalid (all_candidates u rs)) =
        omega (arith, c.dropped) in
      rw (c.items, n)
