-- ===== src/Config/Log.antt =====
-- config.go: LogConfig, as the lines that it prints. A panic of redactURL is none.
use pevo_pinner.Prelude.{
  ◌≡◌, ◌↔◌, refl, sym, ap, ◌∙◌, inl, inr, Bool, true, false, not, Option, none, some, List, [], ◌∷◌,
  ◌++◌, length, length-append, take, take-length-append, leb, if◌then◌else◌, Option-cases, arith,
}
use pevo_pinner.Prelude.Int.{ℤ, is_positive}
use pevo_pinner.Prelude.Text.{Text, codes, is_empty, same}
use pevo_pinner.Config.Env.{contains_byte}
use pevo_pinner.Config.Redact.{redact_url, redact_url_lem, redact_url-none_iff}
use pevo_pinner.Config.Settings.{Config}

-- What `fmt` makes of a duration under `%s` and of an integer under `%d`.
pub record Verbs : Type 0 where
  pub duration : ℤ → Text
  pub decimal : ℤ → Text

-- `strings.Join` with a comma.
unfoldable pub join_commas : List Text → Text
join_commas [] = []
join_commas (s ∷ []) = s
join_commas (s ∷ t ∷ ts) = s ++ b',' ∷ join_commas (t ∷ ts)

-- `%t`
abbrev pub bool_text : Bool → Text
bool_text true = codes "true"
bool_text false = codes "false"

-- A line that is printed under a condition.
abbrev pub line_if : Bool → Text → List Text
line_if true t = t ∷ []
line_if false t = []

module _ (verbs : Verbs) where
  unfoldable pub common_lines : (redacted : Text) → Config → List Text
  common_lines redacted c =
      codes "pevo-pinner starting with config:"
      ∷ (codes "  HAF_DATABASE_URL:  " ++ redacted)
      ∷ (codes "  APP_TAG:           " ++ c.app_tag)
      ∷ (codes "  IPFS_MODE:         " ++ c.ipfs_mode)
      ∷ (codes "  DATA_DIR:          " ++ c.data_dir)
      ∷ (codes "  PORT:              " ++ c.port)
      ∷ (codes "  GATEWAY_PORT:      " ++ c.gateway_port)
      ∷ (codes "  GATEWAY_BIND:      " ++ c.gateway_bind)
      ∷ (codes "  REFRESH_INTERVAL:  " ++ verbs.duration c.refresh_interval)
      ∷ (codes "  AUTOPIN_CONCURRENCY: " ++ verbs.decimal c.auto_pin_concurrency)
      ∷ (codes "  AUTOPIN_AUTHOR_CAP:  " ++ verbs.decimal c.auto_pin_author_cap)
      ∷ []

  unfoldable pub embedded_lines : Config → List Text
  unfolding join_commas
  embedded_lines c =
      (if not (is_empty c.libp2p_listen)
          then codes "  LIBP2P_LISTEN:     " ++ join_commas c.libp2p_listen
          else codes "  LIBP2P_LISTEN:     (libp2p default)")
        ∷ line_if (not (is_empty c.pevo_main_libp2p_addr))
            (codes "  PEVO_MAIN_LIBP2P_ADDR: " ++ c.pevo_main_libp2p_addr)
      ++ line_if (not (is_empty c.pevo_main_gateway_url))
          (codes "  PEVO_MAIN_GATEWAY_URL: " ++ c.pevo_main_gateway_url)
      ++ line_if (not (is_empty c.fallback_gateways))
          (codes "  FALLBACK_GATEWAYS: " ++ join_commas c.fallback_gateways)
      ++ (if is_positive c.bitswap_timeout
          then codes "  BITSWAP_TIMEOUT:   " ++ verbs.duration c.bitswap_timeout
          else codes "  BITSWAP_TIMEOUT:   (default)")
        ∷ (if is_positive c.max_pin_bytes
            then codes "  MAX_PIN_BYTES:     " ++ verbs.decimal c.max_pin_bytes
            else codes "  MAX_PIN_BYTES:     (default)")
        ∷ (codes "  MESH_ENABLED:      " ++ bool_text c.mesh_enabled)
        ∷ line_if c.mesh_allow_private (codes "  MESH_ALLOW_PRIVATE: true")

  unfoldable pub pinata_lines : Config → List Text
  pinata_lines c =
      (if leb 4 (length c.pinata_api_key)
        then codes "  PINATA_API_KEY:    " ++ (take 4 c.pinata_api_key ++ codes "***")
        else codes "  PINATA_API_KEY:    ***")
      ∷ []

  -- The lines, with the database URL as redactURL gives it.
  unfoldable pub printed : (redacted : Text) → Config → List Text
  printed redacted c =
      common_lines redacted c
      ++ ((if same c.ipfs_mode (codes "embedded") then embedded_lines c else [])
          ++ (if same c.ipfs_mode (codes "pinata") then pinata_lines c else []))

  unfoldable pub log_config : Config → Option (List Text)
  unfolding printed
  log_config c = elim (redact_url c.haf_database_url) [
    | none ↦ none
    | some redacted ↦ some (printed redacted c)
  ]

  log_config-some :
      (c : Config) (r : Text)
      → redact_url c.haf_database_url ≡ some r
      → log_config c ≡ some (printed r c)
  unfolding log_config
  log_config-some c r e = rw (e, log_config) refl

  -- LogConfig panics exactly when the database URL is a single @.
  pub log_config-none_iff : (c : Config) → (log_config c ≡ none) ↔ (c.haf_database_url ≡ codes "@")
  unfolding log_config
  log_config-none_iff c = elim (Option-cases (redact_url c.haf_database_url)) [
    | inl e ↦ (λ h. (redact_url-none_iff c.haf_database_url).0 e, λ h. rw (e, log_config) refl)
    | inr (r, e) ↦ (
      λ h. let printed_none : some (printed r c) ≡ none = sym (log_config-some c r e) ∙ h in cc,
      λ h. let gone : some r ≡ none = sym e ∙ (redact_url-none_iff c.haf_database_url).1 h in cc,
    )
  ]

-- A configuration with the given secrets.
abbrev pub with_secrets : Config → (url api_key secret_key : Text) → Config
with_secrets c url api_key secret_key = record c {
  haf_database_url = url;
  pinata_api_key = api_key;
  pinata_secret_key = secret_key;
}

abbrev pub database_url : (scheme user pass host : Text) → Text
database_url scheme user pass host =
    scheme ++ (codes "://" ++ ((user ++ b':' ∷ pass) ++ b'@' ∷ host))

pinata_lines-append :
    (verbs : Verbs) (c : Config) (start k : Text)
    → length start ≡ 4
    → c.pinata_api_key ≡ start ++ k
    → pinata_lines verbs c ≡ (codes "  PINATA_API_KEY:    " ++ (start ++ codes "***")) ∷ []
unfolding pinata_lines
pinata_lines-append verbs c start k e f =
    let long : leb 4 (length (start ++ k)) ≡ true = ground (arith, e, length-append {0} start k) in
    rw f (
      rw long (
        ap (λ t. (codes "  PINATA_API_KEY:    " ++ (t ++ codes "***")) ∷ [])
          (rw (sym e) (take-length-append start k))))

-- What LogConfig prints is the same for any two secret keys, for any two API keys that agree on
-- their first four bytes, and for any two database URLs that differ in the password, where the
-- password and the user are as redactURL takes them.
pub log_config_lem :
    (verbs : Verbs) (c : Config) (scheme user pass pass' host start k k' s s' : Text)
    → contains_byte b':' scheme ≡ false
    → contains_byte b':' user ≡ false
    → contains_byte b'@' user ≡ false
    → contains_byte b'@' pass ≡ false
    → contains_byte b'@' pass' ≡ false
    → length start ≡ 4
    → log_config verbs (with_secrets c (database_url scheme user pass host) (start ++ k) s)
      ≡ log_config verbs (with_secrets c (database_url scheme user pass' host) (start ++ k') s')
unfolding printed common_lines embedded_lines
log_config_lem verbs c scheme user pass pass' host start k k' s s' hs hu hau hp hp' e =
    let a = with_secrets c (database_url scheme user pass host) (start ++ k) s in
    let b = with_secrets c (database_url scheme user pass' host) (start ++ k') s' in
    let r = scheme ++ (codes "://" ++ (user ++ (codes ":****@" ++ host))) in
    log_config-some verbs a r (redact_url_lem scheme user pass host hs hu hau hp)
    ∙ ap some (
        rw (pinata_lines-append verbs a start k e refl)
          (rw (pinata_lines-append verbs b start k' e refl) refl))
    ∙ sym (log_config-some verbs b r (redact_url_lem scheme user pass' host hs hu hau hp'))
