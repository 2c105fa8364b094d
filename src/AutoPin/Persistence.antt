-- ===== src/AutoPin/Persistence.antt =====
-- autopin.go: memory and disk after each operation of the manager, whatever fails.
use pevo_pinner.Prelude.{
  ◌-◌, ◌≡◌, refl, sym, ap, ◌⊎◌, inl, inr, Bool, false, Option, none, some, List, [], ◌∷◌, ◌++◌, map,
  length, length-append, take, take-length-append, All, Bool-cases, Option-cases, arith,
}
use pevo_pinner.Prelude.Text.{Text, same, same_iff}
use pevo_pinner.AtomicFile.{Fs, Faults}
use pevo_pinner.AtomicFile.Crash.{atomic_write_file_lem}
use pevo_pinner.AutoPin.Rule.{AutoPinRule}
use pevo_pinner.AutoPin.Manager.{
  AutoPinManager, Error, not_found, Result, ok, err, Located, located_later, locate, set_enabled,
  save_locked, settle_add, add_rule, settle_update, update_rule, delete_rule, set_all_enabled,
}

-- What the search finds: the first rule with the ID, and the list around it.
pub record Finds (id : Text) (rs : List AutoPinRule) (l : Located) : Type 0 where
  pub whole : rs ≡ l.front ++ l.found ∷ l.behind
  pub named : l.found.id ≡ id
  pub first : All (λ r. same r.id id ≡ false) l.front

located_later-Finds :
    (id : Text) (r : AutoPinRule) (rs : List AutoPinRule) (o : Option Located) (l : Located)
    → same r.id id ≡ false
    → ((l' : Located) → o ≡ some l' → Finds id rs l')
    → located_later r o ≡ some l
    → Finds id (r ∷ rs) l
located_later-Finds id r rs none l other f e = cc
located_later-Finds id r rs (some l') l other f e =
    let g = f l' refl in
    let h : record l' { front = r ∷ l'.front } ≡ l = ground (arith, e) in
    rw (← h) (record { whole = ap (◌∷◌ r) g.whole; named = g.named; first = (other, g.first) })

pub locate-Finds :
    (id : Text) (rs : List AutoPinRule) (l : Located) → locate id rs ≡ some l → Finds id rs l
unfolding locate
locate-Finds id [] l e = cc
locate-Finds id (r ∷ rs) l e = elim (Bool-cases (same r.id id)) [
  | inl hit ↦
      let h : record { front = []; found = r; behind = rs } ≡ l =
        ground (arith, (rw (hit, locate) at e)) in
      rw (← h) (record { whole = refl; named = (same_iff r.id id).0 hit; first = tt })
  | inr miss ↦
      located_later-Finds id r rs (locate id rs) l miss (locate-Finds id rs)
        (rw (miss, locate) at e)
]

take-length-concat {ℓ} :
    {A : Type ℓ} (xs : List A) (x : A) → take (length (xs ++ x ∷ []) - 1) (xs ++ x ∷ []) ≡ xs
take-length-concat xs x =
    let e : length (xs ++ x ∷ []) - 1 ≡ length xs = omega (arith, length-append xs (x ∷ [])) in
    rw e (take-length-append xs (x ∷ []))

module _ (marshal : List AutoPinRule → Option Text)
    (unmarshal : Text → Option (List AutoPinRule)) where
  -- The file holds the rules that are in memory.
  abbrev pub IsSynced : AutoPinManager → Type 0
  IsSynced m = (bytes : Text) × (marshal m.rules ≡ some bytes) × (m.fs m.file_path ≡ some bytes)

  -- The state file of `m'` is that of `m`.
  abbrev pub SameFile : AutoPinManager → AutoPinManager → Type 0
  SameFile m m' = (m'.file_path ≡ m.file_path) × (m'.fs m.file_path ≡ m.fs m.file_path)

  pub data Saves (m : AutoPinManager) : AutoPinManager × Result (Unit {0}) → Type 0 where
    saved :
        (fs : Fs) (bytes : Text)
        → marshal m.rules ≡ some bytes
        → fs m.file_path ≡ some bytes
        → Saves m (record m { fs = fs }, ok tt)
    not_saved :
        (fs : Fs) (e : Error)
        → fs m.file_path ≡ m.fs m.file_path
        → Saves m (record m { fs = fs }, err e)

  pub save_locked-Saves :
      (f : Faults) (m : AutoPinManager) → Saves m (save_locked marshal unmarshal f m)
  unfolding save_locked
  save_locked-Saves f m = elim (Option-cases (marshal m.rules)) [
    | inl e ↦ rw (e, save_locked) (not_saved m.fs _ refl)
    | inr (bytes, e) ↦ elim (atomic_write_file_lem f m.fs m.file_path bytes) [
      | inl (done, written, _) ↦ rw (e, save_locked) (rw done (saved _ bytes e written))
      | inr (failed, kept) ↦ rw (e, save_locked) (rw failed (not_saved _ _ kept))
    ]
  ]

  -- A call that fails has changed neither the rules nor the file.
  abbrev pub Untouched {ℓ} : {A : Type ℓ} → AutoPinManager → AutoPinManager × Result A → Type ℓ
  Untouched m p = (e : Error) × (p.1 ≡ err e) × (p.0.rules ≡ m.rules) × SameFile m p.0

  settle_add_cases :
      (m : AutoPinManager) (r : AutoPinRule) {p : AutoPinManager × Result (Unit {0})}
      → Saves (record m { rules = m.rules ++ r ∷ [] }) p
      → ((settle_add marshal unmarshal r p).1 ≡ ok r)
          × ((settle_add marshal unmarshal r p).0.rules ≡ m.rules ++ r ∷ [])
          × IsSynced (settle_add marshal unmarshal r p).0
        ⊎ Untouched m (settle_add marshal unmarshal r p)
  unfolding settle_add
  settle_add_cases m r (saved fs bytes e w) = inl (refl, refl, (bytes, e, w))
  settle_add_cases m r (not_saved fs e k) = inr (e, refl, take-length-concat m.rules r, (refl, k))

  -- AddRule, whatever fails, either returns the rule under the new ID, has it appended to the rules
  -- in memory and leaves a file that encodes them, or returns an error and leaves the rules and the
  -- file as they were.
  pub add_rule_atomic :
      (f : Faults) (new_id : Text) (r : AutoPinRule) (m : AutoPinManager)
      → let r' = record r { id = new_id } in
        let p = add_rule marshal unmarshal f new_id r m in
        (p.1 ≡ ok r') × (p.0.rules ≡ m.rules ++ r' ∷ []) × IsSynced p.0 ⊎ Untouched m p
  unfolding add_rule
  add_rule_atomic f new_id r m =
      settle_add_cases m (record r { id = new_id }) (save_locked-Saves f _)

  settle_update_cases :
      (m : AutoPinManager) (l : Located) (r : AutoPinRule) {p : AutoPinManager × Result (Unit {0})}
      → m.rules ≡ l.front ++ l.found ∷ l.behind
      → Saves (record m { rules = l.front ++ r ∷ l.behind }) p
      → ((settle_update marshal unmarshal l r p).1 ≡ ok r)
          × ((settle_update marshal unmarshal l r p).0.rules ≡ l.front ++ r ∷ l.behind)
          × IsSynced (settle_update marshal unmarshal l r p).0
        ⊎ Untouched m (settle_update marshal unmarshal l r p)
  unfolding settle_update
  settle_update_cases m l r h (saved fs bytes e w) = inl (refl, refl, (bytes, e, w))
  settle_update_cases m l r h (not_saved fs e k) = inr (e, refl, sym h, (refl, k))

  -- UpdateRule of an ID that some rule has, whatever fails, either returns the rule under that ID,
  -- has it in the place of the first rule with the ID and leaves a file that encodes the rules, or
  -- returns an error and leaves the rules and the file as they were.
  pub update_rule_atomic :
      (f : Faults) (id : Text) (r : AutoPinRule) (m : AutoPinManager) (l : Located)
      → locate id m.rules ≡ some l
      → let r' = record r { id = id } in
        let p = update_rule marshal unmarshal f id r m in
        (p.1 ≡ ok r') × (p.0.rules ≡ l.front ++ r' ∷ l.behind) × IsSynced p.0 ⊎ Untouched m p
  unfolding update_rule
  update_rule_atomic f id r m l e =
      rw (e, update_rule)
        (settle_update_cases m l (record r { id = id }) (locate-Finds id m.rules l e).whole
          (save_locked-Saves f _))

  -- What an operation that never rolls back leaves: the new rules in memory, and the file in step
  -- with them exactly when it returns nil.
  abbrev pub Commits :
      AutoPinManager → List AutoPinRule → AutoPinManager × Result (Unit {0}) → Type 0
  Commits m rs p =
      (p.0.rules ≡ rs)
      × ((p.1 ≡ ok tt) × IsSynced p.0 ⊎ ((e : Error) × (p.1 ≡ err e)) × SameFile m p.0)

  Saves-Commits :
      (m : AutoPinManager) (rs : List AutoPinRule) {p : AutoPinManager × Result (Unit {0})}
      → Saves (record m { rules = rs }) p
      → Commits m rs p
  Saves-Commits m rs (saved fs bytes e w) = (refl, inl (refl, (bytes, e, w)))
  Saves-Commits m rs (not_saved fs e k) = (refl, inr ((e, refl), (refl, k)))

  -- DeleteRule of an ID that some rule has takes the first rule with the ID out of memory on every
  -- branch; it either returns nil and leaves a file that encodes the remaining rules, or returns an
  -- error and leaves the file as it was.
  pub delete_rule-Commits :
      (f : Faults) (id : Text) (m : AutoPinManager) (l : Located)
      → locate id m.rules ≡ some l
      → Commits m (l.front ++ l.behind) (delete_rule marshal unmarshal f id m)
  unfolding delete_rule
  delete_rule-Commits f id m l e =
      rw (e, delete_rule) (Saves-Commits m (l.front ++ l.behind) (save_locked-Saves f _))

  -- `SetAllEnabled` sets the flag of every rule in memory, also where it fails; the file follows if
  -- it returns nil, and else still has the old flags.
  pub set_all_enabled-Commits :
      (f : Faults) (b : Bool) (m : AutoPinManager)
      → Commits m (map (set_enabled b) m.rules) (set_all_enabled marshal unmarshal f b m)
  unfolding set_all_enabled
  set_all_enabled-Commits f b m = Saves-Commits m _ (save_locked-Saves f _)

  -- An update or a removal of an ID that no rule has changes nothing.
  pub not_found_lem :
      (f : Faults) (id : Text) (r : AutoPinRule) (m : AutoPinManager)
      → locate id m.rules ≡ none
      → (update_rule marshal unmarshal f id r m ≡ (m, err (not_found id)))
        × (delete_rule marshal unmarshal f id m ≡ (m, err (not_found id)))
  unfolding update_rule delete_rule
  not_found_lem f id r m e = (rw (e, update_rule), rw (e, delete_rule))
