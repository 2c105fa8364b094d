-- ===== src/Main/Process.antt =====
-- main.go: main from its start to the end of its shutdown, as what it opens and closes. ParseConfig,
-- NewAutoPinManager and the calls of NewEmbeddedNode have given what `StartCalls` says.
pub mod Clean
mod Tests
use pevo_pinner.Prelude.{
  ℕ, zero, suc, ◌+◌, ◌-◌, ◌≡◌, refl, ap, sym, ◌∙◌, ◌⊎◌, inl, inr, Bool, true, false, not, ◌&&◌,
  ◌||◌, Option, none, some, List, [], ◌∷◌, ◌++◌, map, append_assoc, if◌then◌else◌, Bool-cases,
  Option-cases, arith,
}
use pevo_pinner.Prelude.Int.{ℤ, is_positive}
use pevo_pinner.Prelude.Text.{Text, codes, same, is_empty}
use pevo_pinner.Config.Settings.{Config, Checked, accepted, refused}
use pevo_pinner.Config.Log.{Verbs, log_config}
use pevo_pinner.Discovery.Start.{UrlQuery, data_source, new_discovery}
use pevo_pinner.AutoPin.Manager.{AutoPinManager, Result, ok, err}
use pevo_pinner.Node.Lifecycle.{
  Part, dht, Event, opened, closed, Internals, Failures, new_embedded_node, close,
  shutdown_internals, signal_done,
}
use pevo_pinner.Node.Lifecycle.Balance.{still_open}
use pevo_pinner.Main.{node_options, with_defaults, mesh_options}

pub data ProcessStep : Type 0 where
  database_opened database_closed : ProcessStep
  part : Event → ProcessStep
  http_shut_down : ProcessStep
  -- The call of Drain returns.
  drained : ProcessStep

-- Which exit main takes: `os.Exit(1)`, a call of `log.Fatalf` or a panic.
pub data Exit : Type 0 where
  config log_panic data_dir discovery autopin node start_panic : Exit

pub data Backend : Type 0 where
  embedded_node : Internals → Backend
  pinata_backend : Backend
  nil_backend : Backend

pub data Started : Type 0 where
  exited : Exit → Started
  running : Backend → Started

pub record StartCalls (U : Type 0) : Type 0 where
  pub parsed : Checked Config
  pub verbs : Verbs
  pub mkdir_fails : Bool
  pub query : UrlQuery U
  pub opens : Text → Bool
  pub pings : Text → Bool
  pub rules : Result AutoPinManager
  pub failures : Failures
  pub close_fails : Part → Bool

-- NewDiscovery closes the pool again if the ping fails.
unfoldable pub database_steps : {U : Type 0} → StartCalls U → Config → List ProcessStep
database_steps calls c =
    let source = data_source calls.query c.haf_database_url in
    if calls.opens source
    then (if calls.pings source
        then database_opened ∷ []
        else database_opened ∷ database_closed ∷ [])
    else []

-- NewEmbeddedNode with the mesh that the options ask for.
unfoldable pub embedded_steps : {U : Type 0} → StartCalls U → Config → List Event × Option Internals
embedded_steps calls c = elim (with_defaults (node_options c)) [
  | none ↦ ([], none)
  | some o ↦
      new_embedded_node calls.failures calls.close_fails o.pevo_main_libp2p_addr
        (elim (mesh_options o) [ none ↦ false | some m ↦ true ])
]

abbrev pub as_backend : List Event × Option Internals → List Event × Option Backend
as_backend (es, none) = (es, none)
as_backend (es, some n) = (es, some (embedded_node n))

-- The switch over the mode.
unfoldable pub backend_steps : {U : Type 0} → StartCalls U → Config → List Event × Option Backend
backend_steps calls c =
    if same c.ipfs_mode (codes "embedded")
    then as_backend (embedded_steps calls c)
    else (if same c.ipfs_mode (codes "pinata")
        then ([], some pinata_backend)
        else ([], some nil_backend))

-- From the choice of the backend to the wait for a signal. Start panics on a refresh interval that is
-- not positive.
unfoldable pub start_backend :
    (before : List ProcessStep)
    → (refresh_interval : ℤ) → List Event × Option Backend
    → List ProcessStep × Started
start_backend before refresh_interval (es, none) = (before ++ map part es, exited node)
start_backend before refresh_interval (es, some b) =
    let steps = before ++ map part es in
    if is_positive refresh_interval then (steps, running b) else (steps, exited start_panic)

unfoldable pub start_discovery : {U : Type 0} → StartCalls U → Config → List ProcessStep × Started
start_discovery calls c =
    elim (new_discovery calls.query calls.opens calls.pings c.haf_database_url) [
      | none ↦ (database_steps calls c, exited discovery)
      | some d ↦ elim calls.rules [
        | err e ↦ (database_steps calls c, exited autopin)
        | ok m ↦ start_backend (database_steps calls c) c.refresh_interval (backend_steps calls c)
      ]
    ]

unfoldable pub start_up : {U : Type 0} → StartCalls U → List ProcessStep × Started
unfolding start_discovery
start_up calls = elim calls.parsed [
  | refused e ↦ ([], exited config)
  | accepted c ↦ elim (log_config calls.verbs c) [
    | none ↦ ([], exited log_panic)
    | some lines ↦ if calls.mkdir_fails then ([], exited data_dir) else start_discovery calls c
  ]
]

abbrev pub close_steps : (Part → Bool) → Backend → List Event
close_steps close_fails (embedded_node n) = (close close_fails n).1.events
close_steps close_fails pinata_backend = []
close_steps close_fails nil_backend = []

-- From the signal on; an error of any call is logged and the next call is made.
unfoldable pub shut_down : (Part → Bool) → Backend → List ProcessStep
shut_down close_fails b =
    http_shut_down ∷ database_closed ∷ drained ∷ map part (close_steps close_fails b)
