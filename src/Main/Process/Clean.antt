-- ===== src/Main/Process/Clean.antt =====
-- main: what is open at each exit, and behind the shutdown.
use pevo_pinner.Prelude.{
  ℕ, suc, ◌-◌, ◌≡◌, refl, ◌⊎◌, inl, inr, Bool, true, false, Option, none, some, List, [], ◌∷◌, ◌++◌,
  map, if◌then◌else◌, Bool-cases, Option-cases, arith,
}
use pevo_pinner.Prelude.Int.{ℤ, is_positive}
use pevo_pinner.Prelude.Text.{Text, codes, same}
use pevo_pinner.Config.Settings.{Config, Checked, accepted, refused}
use pevo_pinner.Config.Log.{log_config}
use pevo_pinner.Discovery.Start.{data_source, new_discovery}
use pevo_pinner.AutoPin.Manager.{AutoPinManager, Result, ok, err}
use pevo_pinner.Node.Lifecycle.{
  Part, Event, opened, closed, Internals, Failures, new_libp2p_host, new_embedded_node, close,
  shutdown_internals, signal_done,
}
use pevo_pinner.Node.Lifecycle.Balance.{still_open}
use pevo_pinner.Discovery.{Discovery}
use pevo_pinner.Main.{IpfsNodeOptions, node_options, with_defaults, mesh_options}
use pevo_pinner.Main.Process.{
  ProcessStep, database_opened, database_closed, part, http_shut_down, drained, Exit, config,
  log_panic, data_dir, autopin, node, start_panic, Backend, embedded_node, Started, exited, running,
  StartCalls, database_steps, embedded_steps, as_backend, backend_steps, start_backend,
  start_discovery, start_up, shut_down,
}

-- The database pools that are open behind the steps.
unfoldable pub open_databases : List ProcessStep → ℕ → ℕ
open_databases [] n = n
open_databases (database_opened ∷ steps) n = open_databases steps (suc n)
open_databases (database_closed ∷ steps) n = open_databases steps (n - 1)
open_databases (part e ∷ steps) n = open_databases steps n
open_databases (http_shut_down ∷ steps) n = open_databases steps n
open_databases (drained ∷ steps) n = open_databases steps n

unfoldable pub node_events : List ProcessStep → List Event
node_events [] = []
node_events (part e ∷ steps) = e ∷ node_events steps
node_events (database_opened ∷ steps) = node_events steps
node_events (database_closed ∷ steps) = node_events steps
node_events (http_shut_down ∷ steps) = node_events steps
node_events (drained ∷ steps) = node_events steps

-- Some part of the node is closed before a call of Drain has returned.
unfoldable pub closes_early : List ProcessStep → Bool
closes_early [] = false
closes_early (drained ∷ steps) = false
closes_early (part (closed p) ∷ steps) = true
closes_early (part (opened p) ∷ steps) = closes_early steps
closes_early (database_opened ∷ steps) = closes_early steps
closes_early (database_closed ∷ steps) = closes_early steps
closes_early (http_shut_down ∷ steps) = closes_early steps

-- What a process that ran and was shut down leaves.
abbrev pub IsClean : List ProcessStep → Type 0
IsClean steps =
    (open_databases steps 0 ≡ 0)
    × (still_open (node_events steps) [] ≡ [])
    × (closes_early steps ≡ false)

-- The exit is taken behind the return of NewDiscovery.
abbrev pub has_database : Exit → Bool
has_database autopin = true
has_database node = true
has_database start_panic = true
has_database _ = false

-- What main leaves at an exit, or behind the shutdown.
abbrev pub Ends : (Part → Bool) → List ProcessStep × Started → Type 0
Ends fails (steps, exited e) = open_databases steps 0 ≡ (if has_database e then 1 else 0)
Ends fails (steps, running b) = IsClean (steps ++ shut_down fails b)

abbrev EndsNode : (Part → Bool) → List Event × Option Internals → Type 0
EndsNode fails (es, none) = open_databases (map part es) 1 ≡ 1
EndsNode fails (es, some n) =
    (open_databases (map part es) 1 ≡ 1)
    × IsClean (database_opened ∷ (map part es ++ shut_down fails (embedded_node n)))

new_embedded_node-EndsNode :
    (f : Failures) (fails : Part → Bool) (bootstrap_addr : Text) (wanted : Bool)
    → EndsNode fails (new_embedded_node f fails bootstrap_addr wanted)
unfolding new_embedded_node new_libp2p_host shutdown_internals signal_done close still_open
    shut_down open_databases node_events closes_early
new_embedded_node-EndsNode f fails addr wanted = ground arith

abbrev EndsBackend : (Part → Bool) → List Event × Option Backend → Type 0
EndsBackend fails (es, none) = open_databases (map part es) 1 ≡ 1
EndsBackend fails (es, some b) =
    (open_databases (map part es) 1 ≡ 1)
    × IsClean (database_opened ∷ (map part es ++ shut_down fails b))

as_backend-EndsBackend :
    (fails : Part → Bool) (made : List Event × Option Internals)
    → EndsNode fails made
    → EndsBackend fails (as_backend made)
as_backend-EndsBackend fails (es, none) h = h
as_backend-EndsBackend fails (es, some n) h = h

start_backend-Ends :
    (fails : Part → Bool) (interval : ℤ) (made : List Event × Option Backend)
    → EndsBackend fails made
    → Ends fails (start_backend (database_opened ∷ []) interval made)
unfolding start_backend open_databases
start_backend-Ends fails interval (es, none) h = h
start_backend-Ends fails interval (es, some b) (held, clean) =
    elim (Bool-cases (is_positive interval)) [ inl e ↦ rw e clean | inr e ↦ rw e held ]

module _ {U : Type 0} (calls : StartCalls U) (c : Config) where
  embedded_steps-none : with_defaults (node_options c) ≡ none → embedded_steps calls c ≡ ([], none)
  unfolding embedded_steps
  embedded_steps-none e = rw (e, embedded_steps) refl

  embedded_steps-some :
      (o : IpfsNodeOptions)
      → with_defaults (node_options c) ≡ some o
      → embedded_steps calls c
        ≡ new_embedded_node calls.failures calls.close_fails o.pevo_main_libp2p_addr
            (elim (mesh_options o) [ none ↦ false | some m ↦ true ])
  unfolding embedded_steps
  embedded_steps-some o e = rw (e, embedded_steps) refl

  embedded_steps-EndsNode : EndsNode calls.close_fails (embedded_steps calls c)
  unfolding open_databases
  embedded_steps-EndsNode = elim (Option-cases (with_defaults (node_options c))) [
    | inl e ↦ rw (embedded_steps-none e) refl
    | inr (o, e) ↦
        rw (embedded_steps-some o e)
          (new_embedded_node-EndsNode calls.failures calls.close_fails _ _)
  ]

  backend_steps-EndsBackend : EndsBackend calls.close_fails (backend_steps calls c)
  unfolding backend_steps shut_down open_databases node_events closes_early still_open
  backend_steps-EndsBackend = elim (Bool-cases (same c.ipfs_mode (codes "embedded"))) [
    | inl e ↦
        rw (e, backend_steps) (as_backend-EndsBackend calls.close_fails _ embedded_steps-EndsNode)
    | inr e ↦ elim (Bool-cases (same c.ipfs_mode (codes "pinata"))) [
      | inl f ↦ rw (e, f, backend_steps) (refl, (refl, refl, refl))
      | inr f ↦ rw (e, f, backend_steps) (refl, (refl, refl, refl))
    ]
  ]

  -- The pool is open behind NewDiscovery exactly if it returns no error.
  database_steps-cases :
      ((new_discovery calls.query calls.opens calls.pings c.haf_database_url ≡ none)
        × (open_databases (database_steps calls c) 0 ≡ 0))
      ⊎ ((found : Text × Discovery) × (new_discovery calls.query calls.opens calls.pings
              c.haf_database_url
            ≡ some found)
          × (database_steps calls c ≡ database_opened ∷ []))
  unfolding new_discovery database_steps open_databases
  database_steps-cases =
      let source = data_source calls.query c.haf_database_url in
      elim (Bool-cases (calls.opens source)) [
        | inr e ↦ inl (rw (e, new_discovery) refl, rw (e, database_steps) refl)
        | inl e ↦ elim (Bool-cases (calls.pings source)) [
          | inr f ↦ inl (rw (e, f, new_discovery) refl, rw (e, f, database_steps) refl)
          | inl f ↦ inr (
            (source, record { items = [] }),
            rw (e, f, new_discovery) refl,
            rw (e, f, database_steps) refl,
          )
        ]
      ]

  -- The rules, and then the backend.
  with_rules-Ends :
      (rules : Result AutoPinManager)
      → database_steps calls c ≡ database_opened ∷ []
      → Ends calls.close_fails (elim rules [
        | err e ↦ (database_steps calls c, exited autopin)
        | ok m ↦ start_backend (database_steps calls c) c.refresh_interval (backend_steps calls c)
      ])
  unfolding open_databases
  with_rules-Ends (err e) d = rw d refl
  with_rules-Ends (ok m) d = rw d (
      start_backend-Ends calls.close_fails c.refresh_interval (backend_steps calls c)
        backend_steps-EndsBackend)

  start_discovery-Ends : Ends calls.close_fails (start_discovery calls c)
  unfolding start_discovery
  start_discovery-Ends = elim database_steps-cases [
    | inl (e, shut) ↦ rw (e, start_discovery) shut
    | inr (found, e, d) ↦ rw (e, start_discovery) (with_rules-Ends calls.rules d)
  ]

-- Whatever calls fail on the way, if main reaches its wait for a signal, then behind the shutdown
-- no database pool and no part of the node is open, and no part was closed before Drain returned;
-- if it exits, the pool is open exactly if NewDiscovery had returned no error.
pub start_up-Ends : {U : Type 0} (calls : StartCalls U) → Ends calls.close_fails (start_up calls)
unfolding start_up open_databases
start_up-Ends calls = with_config calls.parsed
  where
    with_config :
        (parsed : Checked Config)
        → Ends calls.close_fails (elim parsed [
          | refused e ↦ ([], exited config)
          | accepted c ↦ elim (log_config calls.verbs c) [
            | none ↦ ([], exited log_panic)
            | some lines ↦
                if calls.mkdir_fails then ([], exited data_dir) else start_discovery calls c
          ]
        ])
    with_config (refused e) = refl
    with_config (accepted c) = elim (Option-cases (log_config calls.verbs c)) [
      | inl e ↦ rw e refl
      | inr (lines, e) ↦ elim (Bool-cases calls.mkdir_fails) [
        | inl f ↦ rw e (simp f refl)
        | inr f ↦ rw e (simp f (start_discovery-Ends calls c))
      ]
    ]
