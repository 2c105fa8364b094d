-- ===== src/Config/Valid.antt =====
-- What every configuration that ParseConfig returns satisfies, and what the later parts make of it.
use pevo_pinner.Prelude.{
  ◌≡◌, ◌≢◌, ◌⊎◌, refl, inl, inr, Bool, true, false, not, ◌&&◌, ◌||◌, Option, none, some, List, [],
  ◌∷◌, if◌then◌else◌, Bool-cases, Option-cases, All, arith,
}
use mathlib.Core.Path.{subst}
use pevo_pinner.Prelude.Int.{ℤ, pos, is_positive}
use pevo_pinner.Prelude.Text.{Text, codes, is_empty, same, same_iff}
use pevo_pinner.Config.Env.{Env}
use pevo_pinner.Config.Settings.{
  Config, Flags, ConfigPackage, ConfigError, bad_mode, missing_pinata_keys, Checked, accepted,
  refused, ◌>>=◌, refuse_if, positive, trimmed, split_commas, listed, parse_positive_duration,
  optional_duration, count_setting, byte_setting,
}
use pevo_pinner.Config.Parse.{check_mode, parse_config}

-- A result that satisfies the predicate, or an error.
pub data Ensures {A : Type 0} (P : A → Type 0) : Checked A → Type 0 where
  returns : (a : A) → P a → Ensures P (accepted a)
  fails : (e : ConfigError) → Ensures P (refused e)

pub bind_rule :
    {A B : Type 0} {P : A → Type 0} {Q : B → Type 0} {m : Checked A} {f : A → Checked B}
    → Ensures P m
    → ((a : A) → P a → Ensures Q (f a))
    → Ensures Q (m >>= f)
unfolding ◌>>=◌
bind_rule (returns a p) k = k a p
bind_rule (fails e) k = fails e

pub ensured :
    {A : Type 0} {P : A → Type 0} {r : Checked A} {a : A} → Ensures P r → r ≡ accepted a → P a
ensured {P = P} {a = a} (returns b p) e = let q : b ≡ a = cc in subst P q p
ensured (fails _) e = cc

abbrev pub IsPositive : ℤ → Type 0
IsPositive n = is_positive n ≡ true

abbrev pub IsUnsetOrPositive : ℤ → Type 0
IsUnsetOrPositive n = (n ≡ pos 0) ⊎ IsPositive n

abbrev pub IsKnownMode : Config → Type 0
IsKnownMode c =
    (c.ipfs_mode ≡ codes "embedded")
    ⊎ ((c.ipfs_mode ≡ codes "pinata") × (c.pinata_api_key ≢ []) × (c.pinata_secret_key ≢ []))

-- The settings that have a check of their own.
abbrev pub IsSound : Config → Type 0
IsSound c =
    (c.haf_database_url ≢ [])
    × IsPositive c.auto_pin_concurrency
    × IsPositive c.auto_pin_author_cap
    × IsUnsetOrPositive c.bitswap_timeout
    × IsUnsetOrPositive c.max_pin_bytes
    × IsUnsetOrPositive c.mesh_heartbeat_interval
    × IsUnsetOrPositive c.mesh_cache_ttl
    × All (λ s. s ≢ []) c.libp2p_listen
    × All (λ s. s ≢ []) c.fallback_gateways

abbrev pub IsValid : Config → Type 0
IsValid c = IsSound c × IsKnownMode c

refuse_if-Ensures : (b : Bool) (e : ConfigError) → Ensures (λ u. b ≡ false) (refuse_if b e)
refuse_if-Ensures true e = fails e
refuse_if-Ensures false e = returns tt refl

pub always : {A : Type 0} (r : Checked A) → Ensures (λ a. Unit {0}) r
always (accepted a) = returns a tt
always (refused e) = fails e

positive-Ensures : (s : Text) (o : Option ℤ) → Ensures IsPositive (positive s o)
positive-Ensures s none = fails _
positive-Ensures s (some n) = elim (Bool-cases (is_positive n)) [
  | inl e ↦ rw e (returns n e)
  | inr e ↦ rw e (fails _)
]

non_empty : (s : Text) → is_empty s ≡ false → s ≢ []
non_empty s h = ground (arith, h)

weaken : {r : Checked ℤ} → Ensures IsPositive r → Ensures IsUnsetOrPositive r
weaken (returns n p) = returns n (inr p)
weaken (fails e) = fails e

module _ (pkg : ConfigPackage) where
  count_setting-Ensures :
      (s t : Text) (d : ℤ) → IsPositive d → Ensures IsPositive (count_setting pkg s d t)
  unfolding count_setting
  count_setting-Ensures s t d h = elim (Bool-cases (is_empty t)) [
    | inl e ↦ rw e (returns d h)
    | inr e ↦ rw e (positive-Ensures s (pkg.atoi t))
  ]

  byte_setting-Ensures : (s t : Text) → Ensures IsUnsetOrPositive (byte_setting pkg s t)
  unfolding byte_setting
  byte_setting-Ensures s t = elim (Bool-cases (is_empty t)) [
    | inl e ↦ rw e (returns (pos 0) (inl refl))
    | inr e ↦ rw e (weaken (positive-Ensures s (pkg.parse_int t)))
  ]

  optional_duration-Ensures : (s t : Text) → Ensures IsUnsetOrPositive (optional_duration pkg s t)
  unfolding optional_duration parse_positive_duration
  optional_duration-Ensures s t = elim (Bool-cases (is_empty t)) [
    | inl e ↦ rw e (returns (pos 0) (inl refl))
    | inr e ↦ elim (Option-cases (pkg.parse_duration t)) [
      | inl n ↦ rw (e, n, optional_duration, parse_positive_duration) (fails _)
      | inr (d, n) ↦ elim (Bool-cases (is_positive d)) [
        | inl p ↦
            rw (e, n, optional_duration, parse_positive_duration)
              (rw (p, parse_positive_duration) (returns d (inr p)))
        | inr p ↦
            rw (e, n, optional_duration, parse_positive_duration)
              (rw (p, parse_positive_duration) (fails _))
      ]
    ]
  ]

  trimmed-All : (ps : List Text) → All (λ s. s ≢ []) (trimmed pkg ps)
  unfolding trimmed
  trimmed-All [] = tt
  trimmed-All (p ∷ ps) = elim (Bool-cases (is_empty (pkg.trim_space p))) [
    | inl e ↦ rw (e, trimmed) (trimmed-All ps)
    | inr e ↦ rw (e, trimmed) (ground (arith, e), trimmed-All ps)
  ]

  listed-All : (s : Text) → All (λ s. s ≢ []) (listed pkg s)
  unfolding listed
  listed-All s = elim (Bool-cases (is_empty s)) [
    | inl e ↦ rw (e, listed) tt
    | inr e ↦ rw (e, listed) (trimmed-All (split_commas s))
  ]

  -- The two checks over the outcomes of their tests.
  mode_checks :
      (c : Config) (embedded pinata no_key no_secret : Bool)
      → IsSound c
      → (embedded ≡ true → IsKnownMode c)
      → (pinata ≡ true → no_key ≡ false → no_secret ≡ false → IsKnownMode c)
      → Ensures IsValid (
          if not embedded && not pinata
          then refused bad_mode
          else (if pinata && (no_key || no_secret)
              then refused missing_pinata_keys
              else accepted c))
  mode_checks c false false k s sound e p = fails _
  mode_checks c true false k s sound e p = returns c (sound, e refl)
  mode_checks c true true false false sound e p = returns c (sound, e refl)
  mode_checks c true true true s sound e p = fails _
  mode_checks c true true false true sound e p = fails _
  mode_checks c false true false false sound e p = returns c (sound, p refl refl refl)
  mode_checks c false true true s sound e p = fails _
  mode_checks c false true false true sound e p = fails _

  check_mode-Ensures : (c : Config) → IsSound c → Ensures IsValid (check_mode pkg c)
  unfolding check_mode
  check_mode-Ensures c sound =
      mode_checks c (same c.ipfs_mode (codes "embedded")) (same c.ipfs_mode (codes "pinata"))
        (is_empty c.pinata_api_key) (is_empty c.pinata_secret_key) sound
        (λ e. inl ((same_iff _ _).0 e))
        (λ p k s. inr ((same_iff _ _).0 p, ground (arith, k), ground (arith, s)))

  parse_config-Ensures : (env : Env) (f : Flags) → Ensures IsValid (parse_config pkg env f)
  unfolding parse_config
  parse_config-Ensures env f = bind_rule (refuse_if-Ensures _ _) λ u named.
      bind_rule (always _) λ data_dir any. bind_rule (always _) λ refresh any'.
        bind_rule (count_setting-Ensures _ _ (pos 4) refl) λ conc p.
          bind_rule (count_setting-Ensures _ _ (pos 20) refl) λ cap q.
            bind_rule (optional_duration-Ensures _ _) λ swap r.
              bind_rule (byte_setting-Ensures _ _) λ bytes s. bind_rule (always _) λ mesh any''.
                bind_rule (optional_duration-Ensures _ _) λ beat t.
                  bind_rule (optional_duration-Ensures _ _) λ ttl v.
                    check_mode-Ensures _
                      (non_empty _ named, p, q, r, s, t, v, listed-All _, listed-All _)

  -- A configuration that ParseConfig returns, from any environment and flags, has a database URL, a
  -- positive concurrency and author cap, each of the two periods of the mesh, the bitswap timeout
  -- and the byte cap at zero or positive, no empty entry in a list, and a known mode, with both
  -- keys if it is pinata.
  pub parse_config-IsValid :
      (env : Env) (f : Flags) (c : Config) → parse_config pkg env f ≡ accepted c → IsValid c
  parse_config-IsValid env f c h = ensured (parse_config-Ensures env f) h
