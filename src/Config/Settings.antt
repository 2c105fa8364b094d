-- ===== src/Config/Settings.antt =====
-- config.go: the settings of ParseConfig one by one, parsePositiveDuration, and the lists. A
-- duration is its number of nanoseconds. An error keeps the name of the setting it is about.
use pevo_pinner.Prelude.{
  ℕ, Bool, true, false, not, Option, none, some, List, [], ◌∷◌, ◌==◌, if◌then◌else◌,
}
use pevo_pinner.Prelude.Int.{ℤ, pos, is_positive}
use pevo_pinner.Prelude.Text.{Text, codes, is_empty, same, has, strip_prefix}

pub record Config : Type 0 where
  pub haf_database_url : Text
  pub app_tag : Text
  pub ipfs_mode : Text
  pub data_dir : Text
  pub pinata_api_key : Text
  pub pinata_secret_key : Text
  pub port : Text
  pub gateway_port : Text
  pub gateway_bind : Text
  pub refresh_interval : ℤ
  pub auto_pin_concurrency : ℤ
  pub auto_pin_author_cap : ℤ
  pub libp2p_listen : List Text
  pub pevo_main_libp2p_addr : Text
  pub pevo_main_gateway_url : Text
  pub fallback_gateways : List Text
  pub bitswap_timeout : ℤ
  pub max_pin_bytes : ℤ
  pub mesh_enabled : Bool
  pub mesh_allow_private : Bool
  pub mesh_public_gateway_url : Text
  pub mesh_heartbeat_interval : ℤ
  pub mesh_cache_ttl : ℤ
  pub mesh_advertise_disabled : Bool

-- The flags as `flag.Parse` leaves them: empty or false where one is not given.
pub record Flags : Type 0 where
  pub haf_url : Text
  pub app_tag : Text
  pub ipfs_mode : Text
  pub data_dir : Text
  pub port : Text
  pub gateway_port : Text
  pub gateway_bind : Text
  pub refresh : Text
  pub auto_pin_concurrency : Text
  pub auto_pin_author_cap : Text
  pub libp2p_listen : Text
  pub pevo_main_libp2p : Text
  pub pevo_main_gateway : Text
  pub fallback_gw : Text
  pub bitswap_timeout : Text
  pub max_pin_bytes : Text
  pub mesh_enabled : Text
  pub mesh_allow_private : Bool
  pub mesh_gateway : Text
  pub mesh_interval : Text
  pub mesh_ttl : Text
  pub mesh_adv_off : Bool

-- What the code takes from `time`, `strconv`, `strings`, `os` and `filepath`; none is an error.
pub record ConfigPackage : Type 0 where
  pub parse_duration : Text → Option ℤ
  pub atoi : Text → Option ℤ
  pub parse_int : Text → Option ℤ
  pub to_lower : Text → Text
  pub trim_space : Text → Text
  pub user_home_dir : Option Text
  pub join : Text → Text → Text

pub data ConfigError : Type 0 where
  missing_haf_url : ConfigError
  no_home_dir : ConfigError
  invalid : (setting : Text) → ConfigError
  bad_mode : ConfigError
  missing_pinata_keys : ConfigError

-- What a step of ParseConfig gives.
pub data Checked (V : Type 0) : Type 0 where
  refused : ConfigError → Checked V
  accepted : V → Checked V

-- An `if` that returns an error.
abbrev pub refuse_if : Bool → ConfigError → Checked (Unit {0})
refuse_if false reason = accepted tt
refuse_if true reason = refused reason

infixl 5 ◌>>=◌ ◌>>◌
-- The step behind one that gave no error.
unfoldable pub ◌>>=◌ : {V W : Type 0} → Checked V → (V → Checked W) → Checked W
refused reason >>= next = refused reason
accepted v >>= next = next v

abbrev pub ◌>>◌ : {W : Type 0} → Checked (Unit {0}) → Checked W → Checked W
check >> next = check >>= λ u. next

-- `n, err := …; if err != nil || n <= 0 { return error }`
abbrev pub positive : Text → Option ℤ → Checked ℤ
positive setting none = refused (invalid setting)
positive setting (some n) = if is_positive n then accepted n else refused (invalid setting)

-- `strings.Split` at a comma.
abbrev pub push_byte : ℕ → List Text → List Text
push_byte c [] = (c ∷ []) ∷ []
push_byte c (s ∷ ss) = (c ∷ s) ∷ ss

unfoldable pub split_commas : Text → List Text
split_commas [] = [] ∷ []
split_commas (c ∷ s) =
    let rest = split_commas s in if c == b',' then [] ∷ rest else push_byte c rest

module _ (pkg : ConfigPackage) where
  -- The loop that both lists have.
  unfoldable pub trimmed : List Text → List Text
  trimmed [] = []
  trimmed (p ∷ ps) =
      let rest = trimmed ps in
      if not (is_empty (pkg.trim_space p)) then pkg.trim_space p ∷ rest else rest

  unfoldable pub listed : Text → List Text
  unfolding trimmed split_commas
  listed s = if not (is_empty s) then trimmed (split_commas s) else []

  unfoldable pub parse_positive_duration : Text → Option ℤ
  parse_positive_duration s = elim (pkg.parse_duration s) [
    | none ↦ none
    | some d ↦ if is_positive d then some d else none
  ]

  -- A duration that may be left out, which is 0.
  unfoldable pub optional_duration : (setting : Text) → Text → Checked ℤ
  unfolding parse_positive_duration
  optional_duration setting s =
      if not (is_empty s)
      then elim (parse_positive_duration s) [
        | none ↦ refused (invalid setting)
        | some d ↦ accepted d
      ]
      else accepted (pos 0)

  -- A count with a default.
  unfoldable pub count_setting : (setting : Text) → (default : ℤ) → Text → Checked ℤ
  count_setting setting default s =
      if is_empty s then accepted default else positive setting (pkg.atoi s)

  unfoldable pub byte_setting : (setting : Text) → Text → Checked ℤ
  byte_setting setting s =
      if not (is_empty s) then positive setting (pkg.parse_int s) else accepted (pos 0)

  unfoldable pub is_truthy : Text → Bool
  unfolding has same
  is_truthy v = has (pkg.to_lower v) (codes "1" ∷ codes "true" ∷ codes "yes" ∷ codes "on" ∷ [])

  unfoldable pub is_falsy : Text → Bool
  unfolding has same
  is_falsy v = has (pkg.to_lower v) (codes "0" ∷ codes "false" ∷ codes "no" ∷ codes "off" ∷ [])

  unfoldable pub mesh_enabled_setting : Text → Checked Bool
  unfolding is_truthy is_falsy
  mesh_enabled_setting s =
      if is_empty s
      then accepted true
      else (if is_falsy s
          then accepted false
          else (if is_truthy s then accepted true else refused (invalid (codes "MESH_ENABLED"))))

  -- The two settings that are flags without a value.
  unfoldable pub bool_setting : (env_val : Text) → (flag_val : Bool) → Bool
  unfolding is_truthy
  bool_setting v flag_val =
      if not (is_empty v) then is_truthy v else (if flag_val then true else false)

  unfoldable pub expand_home : Text → Checked Text
  unfolding strip_prefix
  expand_home raw = elim (strip_prefix (codes "~/") raw) [
    | none ↦ accepted raw
    | some rest ↦ elim pkg.user_home_dir [
      | none ↦ refused no_home_dir
      | some home ↦ accepted (pkg.join home rest)
    ]
  ]

  unfoldable pub refresh_setting : Text → Checked ℤ
  refresh_setting s = elim (pkg.parse_duration s) [
    | none ↦ refused (invalid (codes "REFRESH_INTERVAL"))
    | some d ↦ accepted d
  ]
