-- ===== src/Config/Parse.antt =====
-- config.go: ParseConfig behind loadDotenv and flag.Parse, and its last checks.
use pevo_pinner.Prelude.{not, ◌&&◌, ◌||◌, [], if◌then◌else◌}
use pevo_pinner.Prelude.Int.{pos}
use pevo_pinner.Prelude.Text.{codes, is_empty, same}
use pevo_pinner.Config.Env.{Env, env_or_flag}
use pevo_pinner.Config.Settings.{
  Checked, Config, ConfigPackage, Flags, accepted, bad_mode, bool_setting, byte_setting,
  count_setting, expand_home, listed, mesh_enabled_setting, missing_haf_url, missing_pinata_keys,
  optional_duration, refresh_setting, refuse_if, refused, ◌>>=◌, ◌>>◌,
}

module _ (pkg : ConfigPackage) where
  -- The last two checks.
  unfoldable pub check_mode : Config → Checked Config
  unfolding same
  check_mode c =
      if not (same c.ipfs_mode (codes "embedded")) && not (same c.ipfs_mode (codes "pinata"))
      then refused bad_mode
      else (if same c.ipfs_mode (codes "pinata")
            && (is_empty c.pinata_api_key || is_empty c.pinata_secret_key)
          then refused missing_pinata_keys
          else accepted c)

  -- `env` is the environment behind loadDotenv.
  unfoldable pub parse_config : Env → Flags → Checked Config
  parse_config env f = do
    let haf_url = env_or_flag env (codes "HAF_DATABASE_URL") f.haf_url []
    refuse_if (is_empty haf_url) missing_haf_url
    data_dir ←
        expand_home pkg (env_or_flag env (codes "DATA_DIR") f.data_dir (codes "~/.pevo-pinner"))
    refresh ←
        refresh_setting pkg (env_or_flag env (codes "REFRESH_INTERVAL") f.refresh (codes "1h"))
    concurrency ←
        count_setting pkg (codes "AUTOPIN_CONCURRENCY") (pos 4)
          (env_or_flag env (codes "AUTOPIN_CONCURRENCY") f.auto_pin_concurrency [])
    author_cap ←
        count_setting pkg (codes "AUTOPIN_AUTHOR_CAP") (pos 20)
          (env_or_flag env (codes "AUTOPIN_AUTHOR_CAP") f.auto_pin_author_cap [])
    bitswap ←
        optional_duration pkg (codes "BITSWAP_TIMEOUT")
          (env_or_flag env (codes "BITSWAP_TIMEOUT") f.bitswap_timeout [])
    max_bytes ←
        byte_setting pkg (codes "MAX_PIN_BYTES")
          (env_or_flag env (codes "MAX_PIN_BYTES") f.max_pin_bytes [])
    mesh ← mesh_enabled_setting pkg (env_or_flag env (codes "MESH_ENABLED") f.mesh_enabled [])
    heartbeat ←
        optional_duration pkg (codes "MESH_HEARTBEAT_INTERVAL")
          (env_or_flag env (codes "MESH_HEARTBEAT_INTERVAL") f.mesh_interval [])
    ttl ←
        optional_duration pkg (codes "MESH_CACHE_TTL")
          (env_or_flag env (codes "MESH_CACHE_TTL") f.mesh_ttl [])
    check_mode (record {
      haf_database_url = haf_url;
      app_tag = env_or_flag env (codes "APP_TAG") f.app_tag (codes "pevo");
      ipfs_mode = env_or_flag env (codes "IPFS_MODE") f.ipfs_mode (codes "embedded");
      data_dir = data_dir;
      pinata_api_key = env_or_flag env (codes "PINATA_API_KEY") [] [];
      pinata_secret_key = env_or_flag env (codes "PINATA_SECRET_KEY") [] [];
      port = env_or_flag env (codes "PORT") f.port (codes "8421");
      gateway_port = env_or_flag env (codes "GATEWAY_PORT") f.gateway_port (codes "8080");
      gateway_bind = env_or_flag env (codes "GATEWAY_BIND") f.gateway_bind (codes "127.0.0.1");
      refresh_interval = refresh;
      auto_pin_concurrency = concurrency;
      auto_pin_author_cap = author_cap;
      libp2p_listen = listed pkg (env_or_flag env (codes "LIBP2P_LISTEN") f.libp2p_listen []);
      pevo_main_libp2p_addr = env_or_flag env (codes "PEVO_MAIN_LIBP2P_ADDR") f.pevo_main_libp2p [];
      pevo_main_gateway_url =
          env_or_flag env (codes "PEVO_MAIN_GATEWAY_URL") f.pevo_main_gateway [];
      fallback_gateways = listed pkg (env_or_flag env (codes "FALLBACK_GATEWAYS") f.fallback_gw []);
      bitswap_timeout = bitswap;
      max_pin_bytes = max_bytes;
      mesh_enabled = mesh;
      mesh_allow_private = bool_setting pkg (env (codes "MESH_ALLOW_PRIVATE")) f.mesh_allow_private;
      mesh_public_gateway_url = env_or_flag env (codes "MESH_PUBLIC_GATEWAY_URL") f.mesh_gateway [];
      mesh_heartbeat_interval = heartbeat;
      mesh_cache_ttl = ttl;
      mesh_advertise_disabled =
          bool_setting pkg (env (codes "MESH_ADVERTISE_DISABLED")) f.mesh_adv_off;
    })
