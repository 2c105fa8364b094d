-- ===== src/Runner.antt =====
-- autopin_runner.go: the runner's construction, and the per-author cap of `Run`. A Go map from
-- authors to counts is a list of pairs; a missing author counts 0.
pub mod Shedding
pub mod Pool
mod Tests
use pevo_pinner.Prelude.{
  ℕ, zero, suc, ◌+◌, ◌-◌, Bool, List, [], ◌∷◌, ◌++◌, length, leb, if◌then◌else◌,
}
use pevo_pinner.Prelude.Int.{ℤ, pos, negsuc}
use pevo_pinner.Prelude.Text.{Text, same}
use pevo_pinner.Discovery.{DiscoveredItem}

pub record AutoPinRunner : Type 0 where
  pub concurrency : ℕ
  pub author_cap : ℕ

-- `if n < 1 { n = 1 }`
abbrev pub at_least_one : ℤ → ℕ
at_least_one (pos zero) = 1
at_least_one (pos (suc n)) = suc n
at_least_one (negsuc n) = 1

unfoldable pub new_auto_pin_runner : (concurrency author_cap : ℤ) → AutoPinRunner
new_auto_pin_runner c a = record { concurrency = at_least_one c; author_cap = at_least_one a }

abbrev pub Counts : Type 0
Counts = List (Text × ℕ)

unfoldable pub count_of : Text → Counts → ℕ
unfolding same
count_of a [] = 0
count_of a ((k, n) ∷ m) = if same k a then n else count_of a m

-- `m[a]++`
unfoldable pub bump : Text → Counts → Counts
unfolding same
bump a [] = (a, 1) ∷ []
bump a ((k, n) ∷ m) = if same k a then (k, suc n) ∷ m else (k, n) ∷ bump a m

unfoldable pub sum_counts : Counts → ℕ
sum_counts [] = 0
sum_counts ((k, n) ∷ m) = n + sum_counts m

-- The variables of the first loop of `Run`.
pub record Shed : Type 0 where
  pub author_count : Counts
  pub shed_by_author : Counts
  pub queued : List DiscoveredItem

unfoldable pub shed_item : ℕ → DiscoveredItem → Shed → Shed
shed_item cap item s =
    if leb cap (count_of item.author s.author_count)
    then record s { shed_by_author = bump item.author s.shed_by_author }
    else record s { author_count = bump item.author s.author_count; queued = s.queued ++ item ∷ [] }

unfoldable pub shed_loop : ℕ → List DiscoveredItem → Shed → Shed
unfolding shed_item
shed_loop cap [] s = s
shed_loop cap (item ∷ items) s = shed_loop cap items (shed_item cap item s)

unfoldable pub shed : AutoPinRunner → List DiscoveredItem → Shed
unfolding shed_loop count_of bump
shed r items =
    shed_loop r.author_cap items (record { author_count = []; shed_by_author = []; queued = [] })

pub record AutoPinResult : Type 0 where
  pub matched : ℕ
  pub pinned : ℕ
  pub failed : ℕ
  pub shed : ℕ
  pub is_pinned_errors : ℕ

-- The result before anything is scheduled, which `Run` returns if nothing is queued.
unfoldable pub first_result : AutoPinRunner → List DiscoveredItem → AutoPinResult
unfolding shed sum_counts
first_result r items = record {
  matched = length items;
  pinned = 0;
  failed = 0;
  shed = sum_counts (shed r items).shed_by_author;
  is_pinned_errors = 0;
}
