-- ===== src/AutoPin/Identity.antt =====
-- autopin.go: the IDs of the rules over any history of calls.
use pevo_pinner.Prelude.{
  ◌≡◌, refl, sym, ap, ◌∙◌, ◌⊎◌, inl, inr, Bool, false, Option, none, some, List, [], ◌∷◌, ◌++◌, map,
  Option-cases, arith,
}
use pevo_pinner.Prelude.Text.{Text, same_iff, has, has-append, IsDistinct}
use pevo_pinner.AtomicFile.{Faults}
use pevo_pinner.AutoPin.Rule.{AutoPinRule}
use pevo_pinner.AutoPin.Manager.{
  AutoPinManager, Located, default_rule, locate, set_enabled, add_rule, update_rule, delete_rule,
  set_all_enabled,
}
use pevo_pinner.AutoPin.Persistence.{
  locate-Finds, add_rule_atomic, update_rule_atomic, delete_rule-Commits, set_all_enabled-Commits,
  not_found_lem,
}

abbrev pub ids : List AutoPinRule → List Text
ids = map (λ r. r.id)

ids-append : (xs ys : List AutoPinRule) → ids (xs ++ ys) ≡ ids xs ++ ids ys
ids-append [] ys = refl
ids-append (x ∷ xs) ys = ap (◌∷◌ x.id) (ids-append xs ys)

IsDistinct-concat :
    (xs : List Text) (x : Text) → has x xs ≡ false → IsDistinct xs → IsDistinct (xs ++ x ∷ [])
unfolding has
IsDistinct-concat [] x h d = (refl, tt)
IsDistinct-concat (y ∷ xs) x h (p, d) = (
  ground (arith, has-append y xs (x ∷ []), same_iff x y, same_iff y x),
  IsDistinct-concat xs x (ground arith) d,
)

-- Taking one member out keeps the rest distinct, and the member is gone.
IsDistinct-remove :
    (xs ys : List Text) (x : Text)
    → IsDistinct (xs ++ x ∷ ys)
    → IsDistinct (xs ++ ys) × (has x (xs ++ ys) ≡ false)
unfolding has
IsDistinct-remove [] ys x (p, d) = (d, p)
IsDistinct-remove (y ∷ xs) ys x (p, d) =
    let (rest, gone) = IsDistinct-remove xs ys x d in
    (
      (ground (arith, has-append y xs (x ∷ ys), has-append y xs ys), rest),
      ground (arith, has-append y xs (x ∷ ys), same_iff x y, same_iff y x, gone),
    )

pub data Call : Type 0 where
  add : (new_id : Text) → AutoPinRule → Call
  put : (id : Text) → AutoPinRule → Call
  delete : (id : Text) → Call
  enable : Bool → Call

module _ (marshal : List AutoPinRule → Option Text)
    (unmarshal : Text → Option (List AutoPinRule)) where
  ids-add_rule :
      (f : Faults) (new_id : Text) (r : AutoPinRule) (m : AutoPinManager)
      → (ids (add_rule marshal unmarshal f new_id r m).0.rules ≡ ids m.rules ++ new_id ∷ [])
        ⊎ (ids (add_rule marshal unmarshal f new_id r m).0.rules ≡ ids m.rules)
  ids-add_rule f new_id r m = elim (add_rule_atomic marshal unmarshal f new_id r m) [
    | inl (_, e, _) ↦ inl (ap ids e ∙ ids-append m.rules _)
    | inr (_, _, e, _) ↦ inr (ap ids e)
  ]

  -- An update changes no rule's ID, on any branch.
  pub ids-update_rule :
      (f : Faults) (id : Text) (r : AutoPinRule) (m : AutoPinManager)
      → ids (update_rule marshal unmarshal f id r m).0.rules ≡ ids m.rules
  ids-update_rule f id r m = elim (Option-cases (locate id m.rules)) [
    | inl e ↦ ap (λ p. ids p.0.rules) (not_found_lem marshal unmarshal f id r m e).0
    | inr (l, e) ↦
        let g = locate-Finds id m.rules l e in
        elim (update_rule_atomic marshal unmarshal f id r m l e) [
          | inl (_, h, _) ↦
              ap ids h
              ∙ ids-append l.front _
              ∙ ap (λ i. ids l.front ++ i ∷ ids l.behind) (sym g.named)
              ∙ sym (ap ids g.whole ∙ ids-append l.front (l.found ∷ l.behind))
          | inr (_, _, h, _) ↦ ap ids h
        ]
  ]

  -- DeleteRule of an ID that some rule has, among distinct IDs, takes that ID out of the list of
  -- IDs, where it stood between those before and those behind it, keeps the others in order and
  -- distinct, and leaves no rule with the ID.
  pub ids-delete_rule :
      (f : Faults) (id : Text) (m : AutoPinManager) (l : Located)
      → locate id m.rules ≡ some l
      → IsDistinct (ids m.rules)
      → let after = ids (delete_rule marshal unmarshal f id m).0.rules in
        (ids m.rules ≡ ids l.front ++ id ∷ ids l.behind)
        × (after ≡ ids l.front ++ ids l.behind)
        × (has id after ≡ false)
        × IsDistinct after
  ids-delete_rule f id m l e d =
      let g = locate-Finds id m.rules l e in
      let whole : ids m.rules ≡ ids l.front ++ id ∷ ids l.behind =
        ap ids g.whole ∙ ids-append l.front _ ∙ ap (λ i. ids l.front ++ i ∷ ids l.behind) g.named in
      let after =
        ap ids (delete_rule-Commits marshal unmarshal f id m l e).0 ∙ ids-append l.front l.behind in
      let (rest, gone) = IsDistinct-remove (ids l.front) (ids l.behind) id (rw whole at d) in
      (whole, after, rw after gone, rw after rest)

  unfoldable pub step : AutoPinManager → Faults × Call → AutoPinManager
  step m (f, add new_id r) = (add_rule marshal unmarshal f new_id r m).0
  step m (f, put id r) = (update_rule marshal unmarshal f id r m).0
  step m (f, delete id) = (delete_rule marshal unmarshal f id m).0
  step m (f, enable b) = (set_all_enabled marshal unmarshal f b m).0

  unfoldable pub run : AutoPinManager → List (Faults × Call) → AutoPinManager
  run m [] = m
  run m (c ∷ cs) = run (step m c) cs

  -- Every ID that is drawn is new to the rules of that moment.
  abbrev pub DrawsFresh : AutoPinManager → List (Faults × Call) → Type 0
  DrawsFresh m [] = Unit
  DrawsFresh m ((f, add new_id r) ∷ cs) =
      (has new_id (ids m.rules) ≡ false) × DrawsFresh (step m (f, add new_id r)) cs
  DrawsFresh m (c ∷ cs) = DrawsFresh (step m c) cs

  ids-set_enabled : (b : Bool) (rs : List AutoPinRule) → ids (map (set_enabled b) rs) ≡ ids rs
  ids-set_enabled b [] = refl
  ids-set_enabled b (r ∷ rs) = ap (◌∷◌ r.id) (ids-set_enabled b rs)

  add-IsDistinct :
      (f : Faults) (new_id : Text) (r : AutoPinRule) (m : AutoPinManager)
      → has new_id (ids m.rules) ≡ false
      → IsDistinct (ids m.rules)
      → IsDistinct (ids (add_rule marshal unmarshal f new_id r m).0.rules)
  add-IsDistinct f new_id r m fresh d = elim (ids-add_rule f new_id r m) [
    | inl e ↦ rw e (IsDistinct-concat (ids m.rules) new_id fresh d)
    | inr e ↦ rw e d
  ]

  delete_missing :
      (f : Faults) (id : Text) (m : AutoPinManager)
      → locate id m.rules ≡ none
      → (delete_rule marshal unmarshal f id m).0 ≡ m
  delete_missing f id m e =
      ap (λ p. p.0) (not_found_lem marshal unmarshal f id (default_rule id) m e).1

  delete-IsDistinct :
      (f : Faults) (id : Text) (m : AutoPinManager)
      → IsDistinct (ids m.rules)
      → IsDistinct (ids (delete_rule marshal unmarshal f id m).0.rules)
  delete-IsDistinct f id m d = elim (Option-cases (locate id m.rules)) [
    | inl e ↦ rw (delete_missing f id m e) d
    | inr (l, e) ↦ (ids-delete_rule f id m l e d).3
  ]

  -- Over any history of calls of the manager with any faults, in which each new ID is drawn while
  -- no rule has it, rules with distinct IDs stay rules with distinct IDs.
  pub run-IsDistinct :
      (m : AutoPinManager) (cs : List (Faults × Call))
      → IsDistinct (ids m.rules)
      → DrawsFresh m cs
      → IsDistinct (ids (run m cs).rules)
  unfolding run step
  run-IsDistinct m [] d h = d
  run-IsDistinct m ((f, add new_id r) ∷ cs) d (fresh, h) =
      run-IsDistinct (step m (f, add new_id r)) cs (add-IsDistinct f new_id r m fresh d) h
  run-IsDistinct m ((f, put id r) ∷ cs) d h =
      run-IsDistinct (step m (f, put id r)) cs (rw (ids-update_rule f id r m) d) h
  run-IsDistinct m ((f, delete id) ∷ cs) d h =
      run-IsDistinct (step m (f, delete id)) cs (delete-IsDistinct f id m d) h
  run-IsDistinct m ((f, enable b) ∷ cs) d h =
      run-IsDistinct (step m (f, enable b)) cs
        (rw ((set_all_enabled-Commits marshal unmarshal f b m).0)
          (rw (ids-set_enabled b m.rules) d))
        h
