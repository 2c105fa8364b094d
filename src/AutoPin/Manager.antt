-- ===== src/AutoPin/Manager.antt =====
-- autopin.go: `AutoPinManager` and its operations. The manager's lock is held for a whole call, so a
-- call is a function of the state: the rules in memory and the file system. The arguments are what
-- the code does not decide: the faults of the file write, the random bytes of an ID, and
-- `json.MarshalIndent` and `json.Unmarshal` (none: an error).
use pevo_pinner.Prelude.{
  ◌-◌, Bool, true, Option, none, some, List, [], ◌∷◌, ◌++◌, map, length, take, if◌then◌else◌,
}
use pevo_pinner.Prelude.Text.{Text, codes, same}
use pevo_pinner.AtomicFile.{Fs, Faults, atomic_write_file}
use pevo_pinner.AutoPin.Rule.{AutoPinRule}

pub record AutoPinManager : Type 0 where
  pub rules : List AutoPinRule
  pub file_path : Text
  pub fs : Fs

pub data Error : Type 0 where
  marshaling writing reading parsing : Error
  not_found : Text → Error

pub data Result {ℓ} (A : Type ℓ) : Type ℓ where
  ok : A → Result A
  err : Error → Result A

-- The `Rules` of a manager: a copy.
abbrev pub rules_of : AutoPinManager → List AutoPinRule
rules_of m = m.rules

-- The first rule with the ID, between the rules before it and behind it.
pub record Located : Type 0 where
  pub front : List AutoPinRule
  pub found : AutoPinRule
  pub behind : List AutoPinRule

abbrev pub located_later : AutoPinRule → Option Located → Option Located
located_later r none = none
located_later r (some l) = some (record l { front = r ∷ l.front })

unfoldable pub locate : Text → List AutoPinRule → Option Located
unfolding same
locate id [] = none
locate id (r ∷ rs) =
    if same r.id id
    then some (record { front = []; found = r; behind = rs })
    else located_later r (locate id rs)

abbrev pub set_enabled : Bool → AutoPinRule → AutoPinRule
set_enabled enabled r = record r { enabled = enabled }

abbrev pub default_rule : Text → AutoPinRule
default_rule id = record {
  id = id;
  name = codes "All PEvO files";
  enabled = true;
  disciplines = [];
  authors = [];
  cid_types = [];
  title_pattern = [];
  created_after = [];
  created_before = [];
}

module _ (marshal : List AutoPinRule → Option Text)
    (unmarshal : Text → Option (List AutoPinRule)) where
  unfoldable pub save_locked : Faults → AutoPinManager → AutoPinManager × Result (Unit {0})
  save_locked f m = elim (marshal m.rules) [
    | none ↦ (m, err marshaling)
    | some bytes ↦
        let w = atomic_write_file f m.fs m.file_path bytes in
        (record m { fs = w.0 }, if w.1 then ok tt else err writing)
  ]

  -- What `AddRule` does with the result of the save: keep, or cut the last rule off again.
  unfoldable pub settle_add :
      AutoPinRule → AutoPinManager × Result (Unit {0}) → AutoPinManager × Result AutoPinRule
  settle_add r (m, ok _) = (m, ok r)
  settle_add r (m, err e) = (record m { rules = take (length m.rules - 1) m.rules }, err e)

  unfoldable pub add_rule :
      Faults → (new_id : Text) → AutoPinRule → AutoPinManager → AutoPinManager × Result AutoPinRule
  unfolding settle_add save_locked
  add_rule f new_id r m =
      let r' = record r { id = new_id } in
      settle_add r' (save_locked f (record m { rules = m.rules ++ r' ∷ [] }))

  -- What `UpdateRule` does with the result of the save: keep, or put the old rule back.
  unfoldable pub settle_update :
      Located
      → AutoPinRule
      → AutoPinManager × Result (Unit {0})
      → AutoPinManager × Result AutoPinRule
  settle_update l r (m, ok _) = (m, ok r)
  settle_update l r (m, err e) = (record m { rules = l.front ++ l.found ∷ l.behind }, err e)

  unfoldable pub update_rule :
      Faults → (id : Text) → AutoPinRule → AutoPinManager → AutoPinManager × Result AutoPinRule
  unfolding settle_update save_locked locate
  update_rule f id r m = elim (locate id m.rules) [
    | none ↦ (m, err (not_found id))
    | some l ↦
        let r' = record r { id = id } in
        settle_update l r' (save_locked f (record m { rules = l.front ++ r' ∷ l.behind }))
  ]

  unfoldable pub delete_rule :
      Faults → (id : Text) → AutoPinManager → AutoPinManager × Result (Unit {0})
  unfolding save_locked locate
  delete_rule f id m = elim (locate id m.rules) [
    | none ↦ (m, err (not_found id))
    | some l ↦ save_locked f (record m { rules = l.front ++ l.behind })
  ]

  unfoldable pub set_all_enabled :
      Faults → Bool → AutoPinManager → AutoPinManager × Result (Unit {0})
  unfolding save_locked
  set_all_enabled f enabled m =
      save_locked f (record m { rules = map (set_enabled enabled) m.rules })

  unfoldable pub settle_new : AutoPinManager × Result (Unit {0}) → Fs × Result AutoPinManager
  settle_new (m, ok _) = (m.fs, ok m)
  settle_new (m, err e) = (m.fs, err e)

  -- `NewAutoPinManager`. `read_fails` is a read error other than a missing file.
  unfoldable pub new_auto_pin_manager :
      Faults
      → (read_fails : Bool) → (new_id : Text) → (path : Text) → Fs
      → Fs × Result AutoPinManager
  unfolding settle_new save_locked
  new_auto_pin_manager f read_fails new_id path fs =
      if read_fails then (fs, err reading) else elim (fs path) [
        | none ↦
            settle_new (
              save_locked f
                (record { rules = default_rule new_id ∷ []; file_path = path; fs = fs }))
        | some bytes ↦ elim (unmarshal bytes) [
          | none ↦ (fs, err parsing)
          | some rules ↦ (fs, ok (record { rules = rules; file_path = path; fs = fs }))
        ]
      ]
