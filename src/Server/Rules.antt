-- ===== src/Server/Rules.antt =====
-- server.go: the handlers of the auto-pin rules, and what each status says of the rules and of their file.
use pevo_pinner.Prelude.{
  ℕ, Bool, ◌≡◌, refl, ◌⊎◌, inl, inr, Option, none, some, List, [], ◌∷◌, ◌++◌, Option-cases,
}
use pevo_pinner.Prelude.Text.{Text}
use pevo_pinner.AtomicFile.{Faults}
use pevo_pinner.AutoPin.Rule.{AutoPinRule, matching_items}
use pevo_pinner.AutoPin.Manager.{
  AutoPinManager, Result, ok, err, Located, locate, default_rule, rules_of, add_rule, update_rule,
  delete_rule, set_all_enabled,
}
use pevo_pinner.AutoPin.Persistence.{
  IsSynced, SameFile, add_rule_atomic, update_rule_atomic, delete_rule-Commits, not_found_lem,
}
use pevo_pinner.Backend.{IpfsBackend}
use pevo_pinner.Server.{rule, rules, deleted, counts, Server, Response, fails, write_json, RunOf}

abbrev pub answer {ℓ} : {A : Type ℓ} → (code : ℕ) → (A → Response) → Result A → Response
answer code good (ok a) = good a
answer code good (err e) = fails code

module _ (b : IpfsBackend) where
  unfoldable pub handle_get_rules : Server b → Response
  handle_get_rules s = write_json (rules (rules_of s.autopin))

  module _ (marshal : List AutoPinRule → Option Text) (unmarshal : Text → Option (List AutoPinRule))
      (f : Faults) where
    unfoldable pub handle_add_rule :
        (new_id : Text) → Option AutoPinRule → Server b → Server b × Response
    handle_add_rule new_id none s = (s, fails 400)
    handle_add_rule new_id (some r) s =
        let done = add_rule marshal unmarshal f new_id r s.autopin in
        (
          record s { autopin = done.0 },
          answer 500 (λ created. record { status = 201; body = rule created }) done.1,
        )

    unfoldable pub handle_update_rule :
        (id : Text) → Option AutoPinRule → Server b → Server b × Response
    handle_update_rule id none s = (s, fails 400)
    handle_update_rule id (some r) s =
        let done = update_rule marshal unmarshal f id r s.autopin in
        (record s { autopin = done.0 }, answer 404 (λ updated. write_json (rule updated)) done.1)

    unfoldable pub handle_delete_rule : (id : Text) → Server b → Server b × Response
    handle_delete_rule id s =
        let done = delete_rule marshal unmarshal f id s.autopin in
        (record s { autopin = done.0 }, answer 404 (λ u. write_json deleted) done.1)

    -- handleEnableAllRules and handleDisableAllRules.
    unfoldable pub handle_set_all_rules : Bool → Server b → Server b × Response
    handle_set_all_rules enabled s =
        let done = set_all_enabled marshal unmarshal f enabled s.autopin in
        (
          record s { autopin = done.0 },
          answer 500 (λ u. write_json (rules (rules_of done.0))) done.1,
        )

  unfoldable pub handle_evaluate_rules :
      (lower : Text → Text)
      → (parse_date : Text → Option ℕ) → RunOf b
      → Server b
      → Server b × Response
  handle_evaluate_rules lower parse_date run s =
      let matched = matching_items lower parse_date s.autopin.rules s.discovery.items in
      let res = run matched s.backend in (record s { backend = res.0 }, write_json (counts res.1))

module _ (b : IpfsBackend) (marshal : List AutoPinRule → Option Text)
    (unmarshal : Text → Option (List AutoPinRule)) (f : Faults) where
  -- The rules are `rs` and the file encodes them.
  abbrev pub Holds : List AutoPinRule → Server b → Type 0
  Holds rs s = (s.autopin.rules ≡ rs) × IsSynced marshal unmarshal s.autopin

  -- The rules are `rs` and the file is that of `m`.
  abbrev pub Keeps : List AutoPinRule → AutoPinManager → Server b → Type 0
  Keeps rs m s = (s.autopin.rules ≡ rs) × SameFile marshal unmarshal m s.autopin

  -- Adding a rule: 201 with the rule and a file in step, or 500 with nothing changed.
  pub handle_add_rule_lem :
      (new_id : Text) (r : AutoPinRule) (s : Server b)
      → let r' = record r { id = new_id } in
        let p = handle_add_rule b marshal unmarshal f new_id (some r) s in
        ((p.1 ≡ record { status = 201; body = rule r' }) × Holds (s.autopin.rules ++ r' ∷ []) p.0)
        ⊎ ((p.1 ≡ fails 500) × Keeps s.autopin.rules s.autopin p.0)
  unfolding handle_add_rule
  handle_add_rule_lem new_id r s = elim (add_rule_atomic marshal unmarshal f new_id r s.autopin) [
    | inl (done, kept, synced) ↦ inl (rw (done, handle_add_rule) refl, (kept, synced))
    | inr (e, failed, kept, same_file) ↦ inr (rw (failed, handle_add_rule) refl, (kept, same_file))
  ]

  -- The delete handler answers 404 and changes nothing if no rule has the ID; else the first rule
  -- with the ID is gone from memory, and either it answers 200 and the file encodes the rules left,
  -- or it answers 404 and the file is as it was.
  pub handle_delete_rule_lem :
      (id : Text) (s : Server b)
      → let p = handle_delete_rule b marshal unmarshal f id s in
        ((locate id s.autopin.rules ≡ none) × (p ≡ (s, fails 404)))
        ⊎ ((l : Located) × (locate id s.autopin.rules ≡ some l)
            × (((p.1 ≡ write_json deleted) × Holds (l.front ++ l.behind) p.0)
                ⊎ ((p.1 ≡ fails 404) × Keeps (l.front ++ l.behind) s.autopin p.0)))
  unfolding handle_delete_rule
  handle_delete_rule_lem id s = elim (Option-cases (locate id s.autopin.rules)) [
    | inl e ↦ inl (
      e,
      rw
          (
            (not_found_lem marshal unmarshal f id (default_rule id) s.autopin e).1,
            handle_delete_rule,
          )
          refl,
    )
    | inr (l, e) ↦
        let (kept, settled) = delete_rule-Commits marshal unmarshal f id s.autopin l e in
        elim settled [
          | inl (done, synced) ↦
              inr (l, e, inl (rw (done, handle_delete_rule) refl, (kept, synced)))
          | inr ((x, failed), same_file) ↦
              inr (l, e, inr (rw (failed, handle_delete_rule) refl, (kept, same_file)))
        ]
  ]

  -- Updating a rule: 200 with a file in step, or 404 with nothing changed, if the ID is known or not.
  pub handle_update_rule_lem :
      (id : Text) (r : AutoPinRule) (s : Server b)
      → let r' = record r { id = id } in
        let p = handle_update_rule b marshal unmarshal f id (some r) s in
        ((locate id s.autopin.rules ≡ none) × (p ≡ (s, fails 404)))
        ⊎ ((l : Located) × (locate id s.autopin.rules ≡ some l)
            × (((p.1 ≡ write_json (rule r')) × Holds (l.front ++ r' ∷ l.behind) p.0)
                ⊎ ((p.1 ≡ fails 404) × Keeps s.autopin.rules s.autopin p.0)))
  unfolding handle_update_rule
  handle_update_rule_lem id r s = elim (Option-cases (locate id s.autopin.rules)) [
    | inl e ↦
        inl
          (e, rw ((not_found_lem marshal unmarshal f id r s.autopin e).0, handle_update_rule) refl)
    | inr (l, e) ↦ elim (update_rule_atomic marshal unmarshal f id r s.autopin l e) [
      | inl (done, kept, synced) ↦
          inr (l, e, inl (rw (done, handle_update_rule) refl, (kept, synced)))
      | inr (x, failed, kept, same_file) ↦
          inr (l, e, inr (rw (failed, handle_update_rule) refl, (kept, same_file)))
    ]
  ]
