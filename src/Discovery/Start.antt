-- ===== src/Discovery/Start.antt =====
-- discovery.go: NewDiscovery, and Start with its ticker. The connection string goes to the driver, which
-- is an argument.
use pevo_pinner.Prelude.{
  ◌≡◌, refl, inl, inr, Bool, false, Option, none, some, List, [], if◌then◌else◌, Bool-cases,
}
use pevo_pinner.Prelude.Int.{ℤ, is_positive}
use pevo_pinner.Prelude.Text.{Text, codes, is_empty}
use pevo_pinner.Discovery.{SupplementaryFile, QueryResult, Discovery, refresh, run_refreshes}

-- What the code takes from net/url, over the URLs `U`: with_sslmode sets the parameter of the query
-- and prints the URL.
pub record UrlQuery (U : Type 0) : Type 0 where
  pub parse : Text → Option U
  pub sslmode : U → Text
  pub with_sslmode : Text → U → Text

-- What NewDiscovery opens.
unfoldable pub data_source : {U : Type 0} → UrlQuery U → Text → Text
data_source q url = elim (q.parse url) [
  | none ↦ url
  | some u ↦ if is_empty (q.sslmode u) then q.with_sslmode (codes "disable") u else url
]

-- The connection string and the new Discovery; none: `sql.Open` or `Ping` fails.
unfoldable pub new_discovery :
    {U : Type 0} → UrlQuery U → (opens pings : Text → Bool) → Text → Option (Text × Discovery)
unfolding data_source
new_discovery q opens pings url =
    let source = data_source q url in
    if opens source
    then (if pings source then some (source, record { items = [] }) else none)
    else none

-- The first fetch and the ticks; none: NewTicker panics.
unfoldable pub start :
    (Text → Option (List SupplementaryFile))
    → (interval : ℤ) → Discovery
    → (first : QueryResult) → (ticks : List QueryResult) → Option Discovery
start u interval d first ticks =
    let fetched = (refresh u d first).0 in
    if is_positive interval then some (run_refreshes u fetched ticks) else none

-- If a URL that has the parameter set can be parsed and has it, then what is opened for a URL that can
-- be parsed can be parsed, too, and says which sslmode it wants.
pub data_source-sslmode :
    {U : Type 0} (q : UrlQuery U) (url : Text) (u : U)
    → ((m : Text) (v : U) → (w : U) × (q.parse (q.with_sslmode m v) ≡ some w) × (q.sslmode w ≡ m))
    → q.parse url ≡ some u
    → (w : U) × (q.parse (data_source q url) ≡ some w) × (is_empty (q.sslmode w) ≡ false)
unfolding data_source
data_source-sslmode q url u set e = elim (Bool-cases (is_empty (q.sslmode u))) [
  | inl unset ↦
      let (w, parsed, mode) = set (codes "disable") u in
      (w, rw (e, data_source) (rw unset parsed), rw mode refl)
  | inr given ↦ (u, rw (e, data_source) (rw given e), given)
]
