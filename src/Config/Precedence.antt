-- ===== src/Config/Precedence.antt =====
-- Which of a flag and an environment variable ParseConfig takes.
use pevo_pinner.Prelude.{◌≡◌, ◌⊎◌, refl, Bool, not, ◌&&◌, ◌||◌, [], ◌∷◌, Bool-cases, inl, inr}
use pevo_pinner.Prelude.Text.{Text, codes, is_empty, same}
use pevo_pinner.Config.Env.{Env, env_or_flag}
use pevo_pinner.Config.Settings.{Config, Flags, ConfigPackage, accepted, bool_setting, is_truthy}
use pevo_pinner.Config.Parse.{check_mode, parse_config}
use pevo_pinner.Config.Valid.{Ensures, returns, fails, bind_rule, ensured, always}

-- A flag that is given is the value.
abbrev pub Wins : (flag_val val : Text) → Type 0
Wins flag_val val = (val ≡ flag_val) ⊎ (flag_val ≡ [])

-- An environment variable that is set is the value, whatever the flag.
abbrev pub EnvWins : ConfigPackage → (env_val : Text) → (val : Bool) → Type 0
EnvWins pkg env_val val = (val ≡ is_truthy pkg env_val) ⊎ (env_val ≡ [])

abbrev pub Follows : ConfigPackage → Env → Flags → Config → Type 0
Follows pkg env f c =
    Wins f.haf_url c.haf_database_url
    × Wins f.app_tag c.app_tag
    × Wins f.ipfs_mode c.ipfs_mode
    × Wins f.port c.port
    × Wins f.gateway_port c.gateway_port
    × Wins f.gateway_bind c.gateway_bind
    × Wins f.pevo_main_libp2p c.pevo_main_libp2p_addr
    × Wins f.pevo_main_gateway c.pevo_main_gateway_url
    × Wins f.mesh_gateway c.mesh_public_gateway_url
    × EnvWins pkg (env (codes "MESH_ALLOW_PRIVATE")) c.mesh_allow_private
    × EnvWins pkg (env (codes "MESH_ADVERTISE_DISABLED")) c.mesh_advertise_disabled

env_or_flag-Wins : (env : Env) (k v d : Text) → Wins v (env_or_flag env k v d)
unfolding env_or_flag
env_or_flag-Wins env k [] d = inr refl
env_or_flag-Wins env k (x ∷ v) d = inl refl

module _ (pkg : ConfigPackage) where
  bool_setting-EnvWins : (v : Text) (b : Bool) → EnvWins pkg v (bool_setting pkg v b)
  unfolding bool_setting
  bool_setting-EnvWins [] b = inr refl
  bool_setting-EnvWins (x ∷ v) b = inl refl

  check_mode-Follows :
      (env : Env) (f : Flags) (c : Config)
      → Follows pkg env f c
      → Ensures (Follows pkg env f) (check_mode pkg c)
  unfolding check_mode
  check_mode-Follows env f c h =
      elim (Bool-cases
        (not (same c.ipfs_mode (codes "embedded")) && not (same c.ipfs_mode (codes "pinata")))) [
          | inl e ↦ rw e (fails _)
          | inr e ↦
              elim (Bool-cases (
                same c.ipfs_mode (codes "pinata")
                && (is_empty c.pinata_api_key || is_empty c.pinata_secret_key))) [
                  | inl g ↦ rw e (rw g (fails _))
                  | inr g ↦ rw e (rw g (returns c h))
                ]
        ]

  parse_config-Ensures-Follows :
      (env : Env) (f : Flags) → Ensures (Follows pkg env f) (parse_config pkg env f)
  unfolding parse_config
  parse_config-Ensures-Follows env f = bind_rule (always _) λ u a.
      bind_rule (always _) λ data_dir a'. bind_rule (always _) λ refresh b.
        bind_rule (always _) λ conc b'. bind_rule (always _) λ cap d.
          bind_rule (always _) λ swap d'. bind_rule (always _) λ bytes e.
            bind_rule (always _) λ mesh e'. bind_rule (always _) λ beat g.
              bind_rule (always _) λ ttl g'. check_mode-Follows env f _ (
                env_or_flag-Wins _ _ _ _,
                env_or_flag-Wins _ _ _ _,
                env_or_flag-Wins _ _ _ _,
                env_or_flag-Wins _ _ _ _,
                env_or_flag-Wins _ _ _ _,
                env_or_flag-Wins _ _ _ _,
                env_or_flag-Wins _ _ _ _,
                env_or_flag-Wins _ _ _ _,
                env_or_flag-Wins _ _ _ _,
                bool_setting-EnvWins _ _,
                bool_setting-EnvWins _ _,
              )

  -- In a configuration that ParseConfig returns, each of nine text settings is its flag if that is
  -- given, but each of the two Boolean settings of the mesh is what its environment variable says
  -- if that is set, whatever its flag.
  pub parse_config-Follows :
      (env : Env) (f : Flags) (c : Config)
      → parse_config pkg env f ≡ accepted c
      → Follows pkg env f c
  parse_config-Follows env f c h = ensured (parse_config-Ensures-Follows env f) h
