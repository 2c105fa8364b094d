-- ===== src/Discovery/Tests.antt =====
-- discovery.go: a concrete history of queries, and the theorems there.
use pevo_pinner.Prelude.{
  ◌≡◌, refl, true, false, Option, none, some, List, [], ◌∷◌, ◌++◌, length, keep, All, arith,
}
use pevo_pinner.Prelude.Text.{Text, codes, same, has}
use pevo_pinner.Cid.{validate_cid}
use pevo_pinner.Config.Env.{contains_byte}
use pevo_pinner.Discovery.Query.{
  build_discovery_query, quoted, lex, skeleton, literals_of, build_discovery_query_lem,
}
use pevo_pinner.Discovery.Scan.{find_all, render, find_all-render, NoSlash}
use pevo_pinner.Cid.Shape.{IsCid, validate_cid_iff}
use pevo_pinner.Discovery.{
  SupplementaryFile, ScannedRow, QueryResult, query_error, rows, Discovery, refreshed,
  extract_items_from_row, refresh, run_refreshes,
}
use pevo_pinner.Discovery.Spec.{is_valid, is_invalid, all_candidates, firsts}
use pevo_pinner.Discovery.Refinement.{refresh_lem}
use pevo_pinner.Discovery.Snapshot.{cids}

abbrev pub v0 : Text
v0 = codes "QmYwAPJzv5CZsnA625s3Xf2nemtYgPpHdWEz79ojWP5sh5"

abbrev pub v1 : Text
v1 = codes "bafybeigdyrzt5sfp7udm7hu76uh7y26nf3efuylqabf3oclgtqy55fbzdi"

-- A decoder that finds the same two files in every text but the empty one.
abbrev pub two_files : Text → Option (List SupplementaryFile)
two_files [] = none
two_files (c ∷ s) = some (
    record { cid = v1; filename = codes "data.csv" }
    ∷ record { cid = codes "nonsense"; filename = [] }
    ∷ [])

abbrev pub paper : ScannedRow
paper = record {
  author = codes "ann";
  permlink = codes "p1";
  title = codes "On bees";
  ipfs_cid = some v0;
  filename = some (codes "bees.pdf");
  discipline = none;
  supp_json = some (codes "[..]");
  body = some (codes "see /ipfs/" ++ (v0 ++ codes "/fig.png"));
  created = 7;
}

abbrev pub empty_start : Discovery
empty_start = record { items = [] }

abbrev pub history : List QueryResult
history = query_error ∷ rows (some paper ∷ none ∷ []) false ∷ rows (some paper ∷ []) true ∷ []

found : cids (run_refreshes two_files empty_start history).items ≡ v0 ∷ v1 ∷ []
unfolding run_refreshes refresh extract_items_from_row validate_cid has same find_all
found = refl

abbrev links : List (Text × Text)
links = (codes "see ", v0) ∷ (codes " and ", v1) ∷ []

link_shapes : All (λ l. NoSlash l.0 × IsCid l.1) links
unfolding validate_cid
link_shapes =
    ((omega arith, (validate_cid_iff v0).0 refl), ((omega arith, (validate_cid_iff v1).0 refl), tt))

find_all-render_example : find_all 0 (render links (codes "end")) ≡ v0 ∷ v1 ∷ []
find_all-render_example = find_all-render links (codes "end") link_shapes (omega arith)

refresh_lem_example : refresh two_files empty_start (rows (some paper ∷ none ∷ []) false) ≡ (
  record { items = firsts [] (keep is_valid (all_candidates two_files (some paper ∷ none ∷ []))) },
  refreshed
      (firsts [] (keep is_valid (all_candidates two_files (some paper ∷ none ∷ []))))
      (length (keep is_invalid (all_candidates two_files (some paper ∷ none ∷ [])))),
)
refresh_lem_example = refresh_lem two_files empty_start (some paper ∷ none ∷ [])

-- A tag that would end its literal, if its quotes were not doubled.
abbrev tag : Text
tag = codes "a' OR 'b"

build_discovery_query_lem_example :
    lex (build_discovery_query quoted tag)
    ≡ record { outside = skeleton; literals = literals_of tag; is_closed = true }
unfolding contains_byte
build_discovery_query_lem_example = build_discovery_query_lem quoted tag (λ t h. refl) refl
