-- ===== src/AutoPin/Restart.antt =====
-- autopin.go: what a new process loads, after a clean save and after a crash in a save.
use pevo_pinner.Prelude.{
  ℕ, ◌≡◌, refl, ◌∙◌, ◌⊎◌, inl, inr, false, Option, some, List, [], ◌∷◌, map, take, All,
}
use pevo_pinner.Prelude.Text.{Text}
use pevo_pinner.Discovery.{DiscoveredItem}
use pevo_pinner.AtomicFile.{Fs, apply_all, Faults, atomic_write_calls}
use pevo_pinner.AtomicFile.Crash.{atomic_write_crash}
use pevo_pinner.AutoPin.Rule.{AutoPinRule, matching_items}
use pevo_pinner.AutoPin.Matching.{matching_items_of_disabled}
use pevo_pinner.AutoPin.Manager.{
  AutoPinManager, ok, set_enabled, set_all_enabled, new_auto_pin_manager,
}
use pevo_pinner.AutoPin.Persistence.{IsSynced, set_all_enabled-Commits}

All-disabled : (rs : List AutoPinRule) → All (λ r. r.enabled ≡ false) (map (set_enabled false) rs)
All-disabled [] = tt
All-disabled (r ∷ rs) = (refl, All-disabled rs)

module _ (marshal : List AutoPinRule → Option Text)
    (unmarshal : Text → Option (List AutoPinRule)) where
  -- What the code relies on: decoding the encoded rules gives them back.
  abbrev pub RoundTrips : Type 0
  RoundTrips =
      (rs : List AutoPinRule) (bytes : Text) → marshal rs ≡ some bytes → unmarshal bytes ≡ some rs

  load_lem :
      (f : Faults) (new_id path bytes : Text) (fs : Fs) (rs : List AutoPinRule)
      → RoundTrips
      → marshal rs ≡ some bytes
      → fs path ≡ some bytes
      → new_auto_pin_manager marshal unmarshal f false new_id path fs
        ≡ (fs, ok (record { rules = rs; file_path = path; fs = fs }))
  unfolding new_auto_pin_manager
  load_lem f new_id path bytes fs rs trip e stored =
      rw (stored, new_auto_pin_manager) (rw (trip rs bytes e, new_auto_pin_manager) refl)

  -- A manager whose file holds its rules is loaded again as it was.
  pub restart_lem :
      (f : Faults) (new_id : Text) (m : AutoPinManager)
      → RoundTrips
      → IsSynced marshal unmarshal m
      → new_auto_pin_manager marshal unmarshal f false new_id m.file_path m.fs ≡ (m.fs, ok m)
  restart_lem f new_id m trip (bytes, e, stored) =
      load_lem f new_id m.file_path bytes m.fs m.rules trip e stored

  -- If decoding gives back whatever rules were encoded, the file holds the rules of the manager,
  -- and the process stops after any number of the system calls that replace the file by the
  -- encoding of other rules, then the next process loads the old rules or the other rules.
  pub crash_restart :
      (k : ℕ) (f g : Faults) (new_id bytes : Text) (m : AutoPinManager) (rs : List AutoPinRule)
      → RoundTrips
      → IsSynced marshal unmarshal m
      → marshal rs ≡ some bytes
      → let fs = apply_all (take k (atomic_write_calls f m.file_path bytes).0) m.fs in
        let restarted = new_auto_pin_manager marshal unmarshal g false new_id m.file_path fs in
        (restarted ≡ (fs, ok (record m { fs = fs })))
        ⊎ (restarted ≡ (fs, ok (record m { rules = rs; fs = fs })))
  crash_restart k f g new_id bytes m rs trip (old, e, stored) encoded =
      elim (atomic_write_crash k f m.fs m.file_path bytes) [
        | inl kept ↦ inl (load_lem g new_id m.file_path old _ m.rules trip e (kept ∙ stored))
        | inr new ↦ inr (load_lem g new_id m.file_path bytes _ rs trip encoded new)
      ]

  -- After SetAllEnabled(false), whether it was saved or not, MatchingItems selects nothing.
  pub matching_items-set_all_enabled :
      (lower : Text → Text) (parse_date : Text → Option ℕ) (f : Faults) (m : AutoPinManager)
      (items : List DiscoveredItem)
      → matching_items lower parse_date (set_all_enabled marshal unmarshal f false m).0.rules items
        ≡ []
  matching_items-set_all_enabled lower parse_date f m items =
      rw (set_all_enabled-Commits marshal unmarshal f false m).0
        (matching_items_of_disabled lower parse_date _ items (All-disabled m.rules))
