-- ===== src/Main/Wiring.antt =====
-- What the parts get from any configuration that ParseConfig returns.
use pevo_pinner.Prelude.{
  ℕ, zero, suc, ◌/◌, ◌≡◌, refl, ◌∙◌, ◌⊎◌, inl, inr, true, false, none, some, [], ltb, if◌then◌else◌,
  Bool-cases, arith,
}
use pevo_pinner.Prelude.Int.{ℤ, pos, negsuc}
use pevo_pinner.Prelude.Text.{is_empty, same}
use pevo_pinner.Config.Env.{Env}
use pevo_pinner.Config.Settings.{Config, Flags, ConfigPackage, accepted}
use pevo_pinner.Config.Parse.{parse_config}
use pevo_pinner.Config.Valid.{IsPositive, IsUnsetOrPositive, IsKnownMode, parse_config-IsValid}
use pevo_pinner.Runner.{at_least_one, new_auto_pin_runner}
use pevo_pinner.Server.{BackendKind, embedded, pinata}
use pevo_pinner.Main.{
  IpfsNodeOptions, MeshOptions, node_options, completed_node, mesh_of, completed_mesh, or_default,
  with_defaults, mesh_options, with_mesh_defaults, default_bitswap_timeout, default_max_pin_bytes,
  default_mesh_interval, default_mesh_ttl, evict_tick, chosen_backend, chosen_runner,
}

at_least_one_positive : (n : ℤ) → IsPositive n → pos (at_least_one n) ≡ n
at_least_one_positive (pos zero) h = cc
at_least_one_positive (pos (suc n)) h = refl
at_least_one_positive (negsuc n) h = cc

or_default-IsPositive : (d n : ℤ) → IsPositive d → IsUnsetOrPositive n → IsPositive (or_default d n)
or_default-IsPositive d (pos zero) h k = h
or_default-IsPositive d (pos (suc n)) h k = refl
or_default-IsPositive d (negsuc n) h (inl e) = cc
or_default-IsPositive d (negsuc n) h (inr e) = cc

pos-IsPositive : (n : ℕ) → ltb 0 n ≡ true → IsPositive (pos n)
pos-IsPositive zero h = absurd (ground (arith, h))
pos-IsPositive (suc n) h = refl

evict_tick-IsPositive : (n : ℤ) → IsPositive (evict_tick n)
unfolding evict_tick
evict_tick-IsPositive (pos n) = elim (Bool-cases (ltb 0 (n / 2))) [
  | inl e ↦ rw e (pos-IsPositive (n / 2) e)
  | inr e ↦ rw e refl
]
evict_tick-IsPositive (negsuc n) = refl

known_backend : (c : Config) → IsKnownMode c → (kind : BackendKind) × (chosen_backend c ≡ some kind)
unfolding chosen_backend same
known_backend c (inl e) = (embedded (node_options c).gateway_bind, simp e refl)
known_backend c (inr (e, k, l)) = (pinata, simp e refl)

-- The mesh that NewEmbeddedNode starts has the tag of the configuration, and its periods are positive.
abbrev pub IsMeshed : Config → IpfsNodeOptions → Type 0
IsMeshed c o =
    (m m' : MeshOptions) × (mesh_options o ≡ some m)
    × (with_mesh_defaults m ≡ some m')
    × (m'.app_tag ≡ c.app_tag)
    × IsPositive m'.interval
    × IsPositive m'.cache_ttl
    × IsPositive (evict_tick m'.interval)

mesh_lem :
    (c : Config) (o : IpfsNodeOptions)
    → o.mesh_app_tag ≡ (if c.mesh_enabled then c.app_tag else [])
    → IsUnsetOrPositive o.mesh_heartbeat_interval
    → IsUnsetOrPositive o.mesh_cache_ttl
    → ((mesh_options o ≡ none) × ((c.mesh_enabled ≡ false) ⊎ (is_empty c.app_tag ≡ true)))
      ⊎ IsMeshed c o
unfolding mesh_options with_mesh_defaults
mesh_lem c o e beat ttl = elim (Bool-cases c.mesh_enabled) [
  | inr off ↦ inl (simp (e, off) refl, inl off)
  | inl on ↦
      let tag : o.mesh_app_tag ≡ c.app_tag = e ∙ simp on refl in
      elim (Bool-cases (is_empty c.app_tag)) [
        | inl no_tag ↦ inl (simp (tag, no_tag) refl, inr no_tag)
        | inr named ↦ inr (
          mesh_of o,
          completed_mesh (mesh_of o),
          simp (tag, named) refl,
          simp (tag, named) refl,
          tag,
          or_default-IsPositive default_mesh_interval o.mesh_heartbeat_interval refl beat,
          or_default-IsPositive default_mesh_ttl o.mesh_cache_ttl refl ttl,
          evict_tick-IsPositive _,
        )
      ]
]

module _ (pkg : ConfigPackage) where
  -- A backend is chosen, and the runner has the two bounds of the configuration.
  pub chosen_runner_lem :
      (env : Env) (f : Flags) (c : Config)
      → parse_config pkg env f ≡ accepted c
      → ((kind : BackendKind) × (chosen_backend c ≡ some kind))
        × (pos (chosen_runner c).concurrency ≡ c.auto_pin_concurrency)
        × (pos (chosen_runner c).author_cap ≡ c.auto_pin_author_cap)
  unfolding chosen_runner new_auto_pin_runner
  chosen_runner_lem env f c h =
      let ((named, p, q, r, s, t, u, v, w), mode) = parse_config-IsValid pkg env f c h in
      (
        known_backend c mode,
        at_least_one_positive c.auto_pin_concurrency p,
        at_least_one_positive c.auto_pin_author_cap q,
      )

  -- With a configuration that ParseConfig returns and a data directory that is not empty,
  -- NewEmbeddedNode accepts the options of main with a positive bitswap timeout and byte cap, and
  -- there is no mesh and it is disabled or without a tag, or the mesh starts with the tag of the
  -- configuration, a positive interval and TTL, and a positive tick of the eviction.
  pub with_defaults_lem :
      (env : Env) (f : Flags) (c : Config)
      → parse_config pkg env f ≡ accepted c
      → is_empty c.data_dir ≡ false
      → (o : IpfsNodeOptions) × (with_defaults (node_options c) ≡ some o)
        × IsPositive o.bitswap_timeout
        × IsPositive o.max_pin_bytes
        × (((mesh_options o ≡ none) × ((c.mesh_enabled ≡ false) ⊎ (is_empty c.app_tag ≡ true)))
            ⊎ IsMeshed c o)
  unfolding with_defaults node_options
  with_defaults_lem env f c h e =
      let ((named, p, q, swap, bytes, beat, ttl, v, w), mode) =
        parse_config-IsValid pkg env f c h in
      (
        completed_node (node_options c),
        simp e refl,
        or_default-IsPositive default_bitswap_timeout c.bitswap_timeout refl swap,
        or_default-IsPositive default_max_pin_bytes c.max_pin_bytes refl bytes,
        mesh_lem c (completed_node (node_options c)) refl beat ttl,
      )
