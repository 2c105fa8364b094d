-- ===== src/Main/Tests.antt =====
-- The parts that a small configuration leads to, and the results applied to them.
use pevo_pinner.Prelude.{
  ℕ, ◌≤◌, ◌≡◌, refl, true, false, Option, none, some, List, [], ◌∷◌, All, arith,
}
use pevo_pinner.Prelude.Int.{pos}
use pevo_pinner.Prelude.Text.{Text, codes, same, has}
use pevo_pinner.Cid.{validate_cid}
use pevo_pinner.Config.Tests.{toy_package, no_flags, says_no, parsed, parses}
use pevo_pinner.Discovery.{
  DiscoveredItem, row_of, extract_items_from_row, refresh, run_refreshes, paper_item,
  supplementary_item,
}
use pevo_pinner.Discovery.Scan.{find_all}
use pevo_pinner.Discovery.Tests.{v1, two_files, paper, history}
use pevo_pinner.AutoPin.Rule.{
  any_matches, matches, matching_items, excludes, title_excludes, too_old, too_new,
}
use pevo_pinner.AutoPin.Manager.{AutoPinManager, default_rule}
use pevo_pinner.Runner.{AutoPinRunner, shed, new_auto_pin_runner, count_of, bump}
use pevo_pinner.Runner.Shedding.{by_author}
use pevo_pinner.Runner.Pool.{
  Batch, probing, start_batch, Pool, Reach, here, next, enter, inside, schedule,
}
use pevo_pinner.Runner.Pool.Handed.{count_if, items_of}
use pevo_pinner.Main.{chosen_runner, on_refresh, MeshOptions, with_mesh_defaults}
use pevo_pinner.Main.MeshStart.{
  MeshCalls, start_mesh, joined, topic_closed, refused, pubsub_subscribe,
}
use pevo_pinner.Main.Handover.{on_refresh_lem}

-- The rule for everything, and what it finds in the history of queries.
abbrev pub manager : AutoPinManager
manager = record {
  rules = default_rule (codes "all") ∷ [];
  file_path = codes "rules.json";
  fs = λ p. none;
}

abbrev lower : Text → Text
lower t = t

abbrev no_date : Text → Option ℕ
no_date t = none

abbrev file : DiscoveredItem
file = supplementary_item (row_of paper) (record { cid = v1; filename = codes "data.csv" })

abbrev both : List DiscoveredItem
both = paper_item (row_of paper) ∷ file ∷ []

called :
    on_refresh lower no_date manager (run_refreshes two_files (record { items = [] }) history).items
    ≡ some both
unfolding on_refresh matching_items any_matches matches excludes title_excludes too_old too_new
    run_refreshes refresh extract_items_from_row validate_cid has same find_all
called = refl

-- The first of the two items has its goroutine.
abbrev runner : AutoPinRunner
runner = record { concurrency = 7; author_cap = 20 }

abbrev entered : Batch
entered = record (start_batch runner both) { waiting = both }

abbrev running : Batch
running = record entered {
  waiting = file ∷ [];
  flying = record { item = paper_item (row_of paper); stage = probing } ∷ [];
}

abbrev pool_at : ℕ → Batch → Pool
pool_at s b = record { runner = runner; slots = s; batches = b ∷ [] }

reached : Reach (chosen_runner parsed) (pool_at 1 running)
unfolding chosen_runner new_auto_pin_runner shed count_of bump same
reached = next (next here (enter both refl)) (
    inside [] [] entered running 1 refl
      (schedule (paper_item (row_of paper)) (file ∷ []) refl refl (omega arith)) refl)

on_refresh_lem_example :
    All
      (λ i. (validate_cid i.cid ≡ true) × (any_matches lower no_date manager.rules i ≡ true))
      (items_of running.flying)
    × ((x : Text) → count_if (λ i. same i.cid x) (items_of running.flying) ≤ 1)
    × ((cap : ℕ) × (parsed.auto_pin_author_cap ≡ pos cap)
        × ((a : Text) → by_author a (items_of running.flying) ≤ cap))
on_refresh_lem_example =
    on_refresh_lem lower no_date toy_package two_files says_no no_flags parsed manager history
      (pool_at 1 running) [] [] running parses called reached refl

-- The subscription fails.
abbrev unsubscribed : MeshCalls
unsubscribed = record { makes_pubsub = true; joins = true; subscribes = false }

abbrev tagged : MeshOptions
tagged = record {
  app_tag = codes "pevo";
  gateway_url = [];
  interval = pos 0;
  cache_ttl = pos 0;
  advertise_off = true;
  allow_private_gateways = false;
}

topic_left : start_mesh unsubscribed tagged ≡ (
  joined (codes "/pevo-pinners/pevo/heartbeat/1.0.0") ∷ topic_closed ∷ [],
  refused pubsub_subscribe,
)
unfolding start_mesh with_mesh_defaults
topic_left = refl
