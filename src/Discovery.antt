-- ===== src/Discovery.antt =====
-- discovery.go: CID extraction from HAF rows, the refresh and its snapshot. The database driver and
-- `json.Unmarshal` are arguments: a query yields scanned rows, and `unmarshal_supp` decodes the
-- supplementary files of a row (none: an error). Instants are numbers.
pub mod Scan
pub mod Spec
pub mod Refinement
pub mod Snapshot
pub mod Start
pub mod Query
pub mod Tests
use pevo_pinner.Prelude.{
  ℕ, suc, ◌+◌, Bool, true, false, not, ◌&&◌, ◌||◌, Option, none, some, List, [], ◌∷◌, ◌++◌,
  if◌then◌else◌,
}
use pevo_pinner.Prelude.Text.{Text, codes, is_empty, has}
use pevo_pinner.Cid.{validate_cid}
use Scan.{find_all}

pub record DiscoveredItem : Type 0 where
  pub author : Text
  pub permlink : Text
  pub title : Text
  pub cid : Text
  pub filename : Text
  pub cid_type : Text
  pub discipline : Text
  pub created : ℕ

pub record SupplementaryFile : Type 0 where
  pub cid : Text
  pub filename : Text

pub record DiscoveryRow : Type 0 where
  pub author : Text
  pub permlink : Text
  pub title : Text
  pub ipfs_cid : Text
  pub filename : Text
  pub discipline : Text
  pub supp_json : Text
  pub body : Text
  pub created : ℕ

abbrev pub item_of : DiscoveryRow → Text → Text → Text → DiscoveredItem
item_of row cid filename cid_type = record {
  author = row.author;
  permlink = row.permlink;
  title = row.title;
  cid = cid;
  filename = filename;
  cid_type = cid_type;
  discipline = row.discipline;
  created = row.created;
}

abbrev pub paper_item : DiscoveryRow → DiscoveredItem
paper_item row = item_of row row.ipfs_cid row.filename (codes "paper")

abbrev pub supplementary_item : DiscoveryRow → SupplementaryFile → DiscoveredItem
supplementary_item row sf = item_of row sf.cid sf.filename (codes "supplementary")

abbrev pub inline_item : DiscoveryRow → Text → DiscoveredItem
inline_item row cid = item_of row cid [] (codes "inline_image")

-- The named results of `extractItemsFromRow` and the map that it updates in place.
pub record Extraction : Type 0 where
  pub items : List DiscoveredItem
  pub dropped : ℕ
  pub seen : List Text

-- The tail that the three branches share: validate, then drop or record.
pub admit : DiscoveredItem → Extraction → Extraction
admit item x =
    if validate_cid item.cid
    then record x { items = x.items ++ item ∷ []; seen = item.cid ∷ x.seen }
    else record x { dropped = suc x.dropped }

add_paper : DiscoveryRow → Extraction → Extraction
add_paper row x =
    if not (is_empty row.ipfs_cid) && not (has row.ipfs_cid x.seen)
    then admit (paper_item row) x
    else x

add_supplementary : DiscoveryRow → SupplementaryFile → Extraction → Extraction
add_supplementary row sf x =
    if is_empty sf.cid || has sf.cid x.seen then x else admit (supplementary_item row sf) x

supplementary_loop : DiscoveryRow → List SupplementaryFile → Extraction → Extraction
supplementary_loop row [] x = x
supplementary_loop row (sf ∷ sfs) x = supplementary_loop row sfs (add_supplementary row sf x)

add_inline : DiscoveryRow → Text → Extraction → Extraction
add_inline row cid x = if has cid x.seen then x else admit (inline_item row cid) x

inline_loop : DiscoveryRow → List Text → Extraction → Extraction
inline_loop row [] x = x
inline_loop row (c ∷ cs) x = inline_loop row cs (add_inline row c x)

-- A row as the driver scans it: none for SQL NULL, in the columns that may hold it.
pub record ScannedRow : Type 0 where
  pub author : Text
  pub permlink : Text
  pub title : Text
  pub ipfs_cid : Option Text
  pub filename : Option Text
  pub discipline : Option Text
  pub supp_json : Option Text
  pub body : Option Text
  pub created : ℕ

-- `sql.NullString.String`
abbrev pub null_string : Option Text → Text
null_string none = []
null_string (some s) = s

abbrev pub row_of : ScannedRow → DiscoveryRow
row_of r = record {
  author = r.author;
  permlink = r.permlink;
  title = r.title;
  ipfs_cid = null_string r.ipfs_cid;
  filename = null_string r.filename;
  discipline = null_string r.discipline;
  supp_json = null_string r.supp_json;
  body = null_string r.body;
  created = r.created;
}

-- What the database gives: an error, or rows (none where `Scan` fails) and `rows.Err() != nil`.
pub data QueryResult : Type 0 where
  query_error : QueryResult
  rows : List (Option ScannedRow) → (failed : Bool) → QueryResult

pub record Discovery : Type 0 where
  pub items : List DiscoveredItem

-- How a refresh ends; `refreshed` holds what `onRefresh` is called with, and the invalid CIDs.
pub data RefreshResult : Type 0 where
  query_failed : RefreshResult
  iteration_failed : RefreshResult
  refreshed : List DiscoveredItem → ℕ → RefreshResult

module _ (unmarshal_supp : Text → Option (List SupplementaryFile)) where
  add_supp_json : DiscoveryRow → Extraction → Extraction
  unfolding supplementary_loop add_supplementary
  add_supp_json row x =
      if not (is_empty row.supp_json)
      then elim (unmarshal_supp row.supp_json) [
        | none ↦ x
        | some sfs ↦ supplementary_loop row sfs x
      ]
      else x

  add_body : DiscoveryRow → Extraction → Extraction
  unfolding inline_loop add_inline find_all
  add_body row x = if not (is_empty row.body) then inline_loop row (find_all 0 row.body) x else x

  unfoldable pub extract_items_from_row : DiscoveryRow → List Text → Extraction
  unfolding add_paper add_supp_json add_body admit
  extract_items_from_row row seen =
      add_body row
        (add_supp_json row (add_paper row (record { items = []; dropped = 0; seen = seen })))

  -- One turn of the loop of `refresh`.
  add_row : Option ScannedRow → Extraction → Extraction
  add_row none x = x
  add_row (some r) x =
      let y = extract_items_from_row (row_of r) x.seen in
      record { items = x.items ++ y.items; dropped = x.dropped + y.dropped; seen = y.seen }

  row_loop : List (Option ScannedRow) → Extraction → Extraction
  row_loop [] x = x
  row_loop (r ∷ rs) x = row_loop rs (add_row r x)

  unfoldable pub refresh : Discovery → QueryResult → Discovery × RefreshResult
  unfolding extract_items_from_row add_row row_loop
  refresh d query_error = (d, query_failed)
  refresh d (rows rs failed) =
      let x = row_loop rs (record { items = []; dropped = 0; seen = [] }) in
      if failed
      then (d, iteration_failed)
      else (record { items = x.items }, refreshed x.items x.dropped)

  -- The loop of `Start`: the first fetch and one refresh for each tick.
  unfoldable pub run_refreshes : Discovery → List QueryResult → Discovery
  run_refreshes d [] = d
  run_refreshes d (q ∷ qs) = run_refreshes (refresh d q).0 qs
