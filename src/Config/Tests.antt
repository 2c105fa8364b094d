-- ===== src/Config/Tests.antt =====
-- Runs on small environments, and the results applied to them.
use pevo_pinner.Prelude.{◌≡◌, refl, true, false, none, some, List, [], ◌∷◌, ◌++◌, if◌then◌else◌}
use pevo_pinner.Prelude.Int.{pos, negsuc}
use pevo_pinner.Prelude.Text.{Text, codes, same, has, strip_prefix}
use pevo_pinner.Config.Env.{
  Env, env_or_flag, cut, unquote, entry_of, contains_byte, is_settable, set_env, set_if_unset,
  load_dotenv,
}
use pevo_pinner.Config.Redact.{redact_url, index}
use pevo_pinner.Config.Settings.{
  Config, Flags, ConfigPackage, ConfigError, accepted, refused, ◌>>=◌, split_commas, trimmed,
  listed, count_setting, byte_setting, optional_duration, mesh_enabled_setting, is_truthy, is_falsy,
  bool_setting, expand_home, refresh_setting,
}
use pevo_pinner.Config.Log.{
  Verbs, log_config, printed, common_lines, pinata_lines, embedded_lines, join_commas, with_secrets,
  database_url, log_config_lem,
}
use pevo_pinner.Config.Parse.{parse_config, check_mode}
use pevo_pinner.Config.Valid.{IsValid, parse_config-IsValid}

abbrev no_trim : Text → Text
no_trim t = t

abbrev home_env : Env
home_env k = if same k (codes "HOME") then codes "/root" else []

abbrev file_lines : List Text
file_lines =
    codes "# settings"
    ∷ codes "HOME=/tmp"
    ∷ codes "PORT="
    ∷ codes "PORT=\"80\""
    ∷ codes "PORT=81"
    ∷ []

loaded_port : load_dotenv no_trim (some file_lines) home_env (codes "PORT") ≡ codes "80"
unfolding load_dotenv entry_of cut unquote set_if_unset set_env is_settable contains_byte same
    strip_prefix
loaded_port = refl

-- A password with an `@` is cut at its first one.
leaks : redact_url (codes "p://u:a@b@h") ≡ some (codes "p://u:****@b@h")
unfolding redact_url index strip_prefix
leaks = refl

abbrev pub toy_package : ConfigPackage
toy_package = record {
  parse_duration = λ s.
      if same s (codes "1h")
      then some (pos 3600000000000)
      else (if same s (codes "0") then some (pos 0) else none);
  atoi = λ s. if same s (codes "7") then some (pos 7) else none;
  parse_int = λ s. some (negsuc 0);
  to_lower = λ s. s;
  trim_space = λ s. s;
  user_home_dir = some (codes "/root");
  join = λ a b. a ++ (codes "/" ++ b);
}

abbrev pub no_flags : Flags
no_flags = record {
  haf_url = codes "h";
  app_tag = [];
  ipfs_mode = [];
  data_dir = [];
  port = codes "99";
  gateway_port = [];
  gateway_bind = [];
  refresh = codes "0";
  auto_pin_concurrency = codes "7";
  auto_pin_author_cap = [];
  libp2p_listen = codes "a,,b";
  pevo_main_libp2p = [];
  pevo_main_gateway = [];
  fallback_gw = [];
  bitswap_timeout = [];
  max_pin_bytes = [];
  mesh_enabled = codes "off";
  mesh_allow_private = false;
  mesh_gateway = [];
  mesh_interval = [];
  mesh_ttl = [];
  mesh_adv_off = true;
}

-- The subscribe-only flag is given, and the variable says no.
abbrev pub says_no : Env
says_no k = if same k (codes "MESH_ADVERTISE_DISABLED") then codes "no" else []

abbrev pub parsed : Config
parsed = record {
  haf_database_url = codes "h";
  app_tag = codes "pevo";
  ipfs_mode = codes "embedded";
  data_dir = codes "/root/.pevo-pinner";
  pinata_api_key = [];
  pinata_secret_key = [];
  port = codes "99";
  gateway_port = codes "8080";
  gateway_bind = codes "127.0.0.1";
  refresh_interval = pos 0;
  auto_pin_concurrency = pos 7;
  auto_pin_author_cap = pos 20;
  libp2p_listen = codes "a" ∷ codes "b" ∷ [];
  pevo_main_libp2p_addr = [];
  pevo_main_gateway_url = [];
  fallback_gateways = [];
  bitswap_timeout = pos 0;
  max_pin_bytes = pos 0;
  mesh_enabled = false;
  mesh_allow_private = false;
  mesh_public_gateway_url = [];
  mesh_heartbeat_interval = pos 0;
  mesh_cache_ttl = pos 0;
  mesh_advertise_disabled = false;
}

pub parses : parse_config toy_package says_no no_flags ≡ accepted parsed
unfolding parse_config ◌>>=◌ env_or_flag expand_home refresh_setting count_setting byte_setting
    optional_duration mesh_enabled_setting is_truthy is_falsy bool_setting listed trimmed
    split_commas check_mode same has strip_prefix
parses = refl

-- A cap of negative bytes is refused.
refuses :
    parse_config toy_package says_no (record no_flags { max_pin_bytes = codes "x" })
    ≡ refused (ConfigError.invalid (codes "MAX_PIN_BYTES"))
unfolding parse_config ◌>>=◌ env_or_flag expand_home refresh_setting count_setting byte_setting
    optional_duration same strip_prefix
refuses = refl

parse_config-IsValid_example : IsValid parsed
parse_config-IsValid_example = parse_config-IsValid toy_package says_no no_flags parsed parses

-- A duration and a number are shown as a dash.
abbrev pub dashes : Verbs
dashes = record { duration = λ d. codes "-"; decimal = λ n. codes "-" }

abbrev with_pinata : Config
with_pinata = record parsed {
  haf_database_url = codes "p://u:x@h";
  ipfs_mode = codes "pinata";
  pinata_api_key = codes "abcdef";
  libp2p_listen = [];
}

logged :
    log_config dashes with_pinata
    ≡ some (
        codes "pevo-pinner starting with config:"
        ∷ codes "  HAF_DATABASE_URL:  p://u:****@h"
        ∷ codes "  APP_TAG:           pevo"
        ∷ codes "  IPFS_MODE:         pinata"
        ∷ codes "  DATA_DIR:          /root/.pevo-pinner"
        ∷ codes "  PORT:              99"
        ∷ codes "  GATEWAY_PORT:      8080"
        ∷ codes "  GATEWAY_BIND:      127.0.0.1"
        ∷ codes "  REFRESH_INTERVAL:  -"
        ∷ codes "  AUTOPIN_CONCURRENCY: -"
        ∷ codes "  AUTOPIN_AUTHOR_CAP:  -"
        ∷ codes "  PINATA_API_KEY:    abcd***"
        ∷ [])
unfolding log_config printed common_lines pinata_lines redact_url index strip_prefix same
logged = refl

listed_addresses :
    embedded_lines dashes parsed
    ≡ codes "  LIBP2P_LISTEN:     a,b"
      ∷ codes "  BITSWAP_TIMEOUT:   (default)"
      ∷ codes "  MAX_PIN_BYTES:     (default)"
      ∷ codes "  MESH_ENABLED:      false"
      ∷ []
unfolding embedded_lines join_commas
listed_addresses = refl

log_config_lem_example :
    log_config dashes (
      with_secrets with_pinata
        (database_url (codes "p") (codes "u") (codes "x") (codes "h"))
        (codes "abcd" ++ codes "ef")
        (codes "one"))
    ≡ log_config dashes (
        with_secrets with_pinata
          (database_url (codes "p") (codes "u") (codes "yz") (codes "h"))
          (codes "abcd" ++ [])
          (codes "two"))
unfolding contains_byte
log_config_lem_example =
    log_config_lem dashes with_pinata (codes "p") (codes "u") (codes "x") (codes "yz") (codes "h")
      (codes "abcd") (codes "ef") [] (codes "one") (codes "two") refl refl refl refl refl refl
