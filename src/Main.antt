-- ===== src/Main.antt =====
-- main.go: what main makes of a configuration: the options of the backend, the runner, the callback of
-- a refresh, and the exits on the way; with the options that ipfsnode.go completes.
pub mod Wiring
pub mod Handover
pub mod MeshStart
pub mod Process
pub mod Tests
use pevo_pinner.Prelude.{
  ℕ, zero, suc, ◌/◌, ltb, Bool, true, false, Option, none, some, List, [], ◌∷◌, ◌++◌, if◌then◌else◌,
}
use pevo_pinner.Prelude.Int.{ℤ, pos, negsuc}
use pevo_pinner.Prelude.Text.{Text, codes, is_empty, same}
use pevo_pinner.Config.Settings.{Config}
use pevo_pinner.Discovery.{DiscoveredItem}
use pevo_pinner.AutoPin.Rule.{matching_items}
use pevo_pinner.AutoPin.Manager.{AutoPinManager}
use pevo_pinner.Runner.{AutoPinRunner, new_auto_pin_runner}
use pevo_pinner.Server.{BackendKind, embedded, pinata}

pub record IpfsNodeOptions : Type 0 where
  pub data_dir : Text
  pub gateway_bind : Text
  pub libp2p_listen : List Text
  pub pevo_main_libp2p_addr : Text
  pub bitswap_timeout : ℤ
  pub pevo_main_gateway_url : Text
  pub fallback_gateways : List Text
  pub max_pin_bytes : ℤ
  pub mesh_app_tag : Text
  pub mesh_public_gateway_url : Text
  pub mesh_heartbeat_interval : ℤ
  pub mesh_cache_ttl : ℤ
  pub mesh_advertise_disabled : Bool
  pub mesh_allow_private : Bool

pub record MeshOptions : Type 0 where
  pub app_tag : Text
  pub gateway_url : Text
  pub interval : ℤ
  pub cache_ttl : ℤ
  pub advertise_off : Bool
  pub allow_private_gateways : Bool

-- The options that main gives to an embedded node.
unfoldable pub node_options : Config → IpfsNodeOptions
node_options c = record {
  data_dir = c.data_dir;
  gateway_bind = c.gateway_bind ++ (codes ":" ++ c.gateway_port);
  libp2p_listen = c.libp2p_listen;
  pevo_main_libp2p_addr = c.pevo_main_libp2p_addr;
  bitswap_timeout = c.bitswap_timeout;
  pevo_main_gateway_url = c.pevo_main_gateway_url;
  fallback_gateways = c.fallback_gateways;
  max_pin_bytes = c.max_pin_bytes;
  mesh_app_tag = if c.mesh_enabled then c.app_tag else [];
  mesh_public_gateway_url = c.mesh_public_gateway_url;
  mesh_heartbeat_interval = c.mesh_heartbeat_interval;
  mesh_cache_ttl = c.mesh_cache_ttl;
  mesh_advertise_disabled = c.mesh_advertise_disabled;
  mesh_allow_private = c.mesh_allow_private;
}

abbrev pub default_gateway_bind : Text
default_gateway_bind = codes "127.0.0.1:8080"

abbrev pub default_bitswap_timeout : ℤ
default_bitswap_timeout = pos 60000000000

abbrev pub default_max_pin_bytes : ℤ
default_max_pin_bytes = pos 1073741824

abbrev pub default_mesh_interval : ℤ
default_mesh_interval = pos 30000000000

abbrev pub default_mesh_ttl : ℤ
default_mesh_ttl = pos 300000000000

-- `if n == 0 { n = d }`
abbrev pub or_default : ℤ → ℤ → ℤ
or_default d (pos zero) = d
or_default d (pos (suc n)) = pos (suc n)
or_default d (negsuc n) = negsuc n

-- The defaults of NewEmbeddedNode.
abbrev pub completed_node : IpfsNodeOptions → IpfsNodeOptions
completed_node o = record o {
  gateway_bind = if is_empty o.gateway_bind then default_gateway_bind else o.gateway_bind;
  bitswap_timeout = or_default default_bitswap_timeout o.bitswap_timeout;
  max_pin_bytes = or_default default_max_pin_bytes o.max_pin_bytes;
}

-- The head of NewEmbeddedNode; none: the error for an empty data directory.
unfoldable pub with_defaults : IpfsNodeOptions → Option IpfsNodeOptions
with_defaults o = if is_empty o.data_dir then none else some (completed_node o)

-- What NewEmbeddedNode passes to startMesh.
abbrev pub mesh_of : IpfsNodeOptions → MeshOptions
mesh_of o = record {
  app_tag = o.mesh_app_tag;
  gateway_url = o.mesh_public_gateway_url;
  interval = o.mesh_heartbeat_interval;
  cache_ttl = o.mesh_cache_ttl;
  advertise_off = o.mesh_advertise_disabled;
  allow_private_gateways = o.mesh_allow_private;
}

-- The options of the mesh that NewEmbeddedNode starts; none: no mesh.
unfoldable pub mesh_options : IpfsNodeOptions → Option MeshOptions
mesh_options o = if is_empty o.mesh_app_tag then none else some (mesh_of o)

-- The defaults of startMesh.
abbrev pub completed_mesh : MeshOptions → MeshOptions
completed_mesh o = record o {
  interval = or_default default_mesh_interval o.interval;
  cache_ttl = or_default default_mesh_ttl o.cache_ttl;
}

-- The head of startMesh; none: the error for an empty tag.
unfoldable pub with_mesh_defaults : MeshOptions → Option MeshOptions
with_mesh_defaults o = if is_empty o.app_tag then none else some (completed_mesh o)

-- The tick of evictLoop.
unfoldable pub evict_tick : ℤ → ℤ
evict_tick (pos n) = if ltb 0 (n / 2) then pos (n / 2) else pos 15000000000
evict_tick (negsuc n) = pos 15000000000

-- The switch over the mode; none: the backend stays nil.
unfoldable pub chosen_backend : Config → Option BackendKind
chosen_backend c =
    if same c.ipfs_mode (codes "embedded")
    then some (embedded (node_options c).gateway_bind)
    else (if same c.ipfs_mode (codes "pinata") then some pinata else none)

unfoldable pub chosen_runner : Config → AutoPinRunner
chosen_runner c = new_auto_pin_runner c.auto_pin_concurrency c.auto_pin_author_cap

-- The callback: what it calls Run with; none: it returns at once.
unfoldable pub on_refresh :
    (lower : Text → Text)
    → (parse_date : Text → Option ℕ) → AutoPinManager
    → List DiscoveredItem
    → Option (List DiscoveredItem)
on_refresh lower parse_date m items = elim (matching_items lower parse_date m.rules items) [
  | [] ↦ none
  | i ∷ matched ↦ some (i ∷ matched)
]
