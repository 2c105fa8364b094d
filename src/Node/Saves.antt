-- ===== src/Node/Saves.antt =====
-- ipfsnode.go: markPinned, Unpin and savePins of several goroutines, step by step, with the phases of
-- atomicWriteFile (atomicfile.go) on the one temporary file that all of them use.
mod Tests
use pevo_pinner.Prelude.{
  ℕ, zero, suc, ◌+◌, ◌≤◌, ◌<◌, ◌≡◌, refl, ap, sym, ◌∙◌, ◌⊎◌, inl, inr, Bool, true, false, List, [],
  ◌∷◌, ◌++◌, length, length-middle, arith,
}
use pevo_pinner.Prelude.Text.{Text, has}
use pevo_pinner.Node.{add_key, delete_key}

-- What a file holds; `partial` stands for any bytes short of the whole list.
pub data Contents : Type 0 where
  absent partial : Contents
  whole : (cids : List Text) → Contents

-- How far a save has come with the keys it has copied. A write goes to the temporary path, as it
-- does in the source as long as no other save renames it in between.
pub data Save : Type 0 where
  copied opened written : (cids : List Text) → Save

-- `owed` counts the calls that have changed the map and have not copied it yet, and `has_failed`
-- says that the last save to end has left the state file as it was.
pub record Saving : Type 0 where
  pub pins : List Text
  pub file : Contents
  pub tmp : Contents
  pub owed : ℕ
  pub saves : List Save
  pub has_failed : Bool

abbrev pub at_rest : List Text → Saving
at_rest pins = record {
  pins = pins;
  file = whole pins;
  tmp = absent;
  owed = 0;
  saves = [];
  has_failed = false;
}

-- The two lists have the same keys.
abbrev pub IsSame : (xs ys : List Text) → Type 0
IsSame xs ys = (x : Text) → has x xs ≡ has x ys

-- At most `savers` calls are in savePins behind its copy at a time.
pub data SaveStep (savers : ℕ) : Saving → Saving → Type 0 where
  mark :
      (s : Saving) (cid : Text)
      → SaveStep savers s (record s { pins = add_key cid s.pins; owed = suc s.owed })
  unmark :
      (s : Saving) (cid : Text)
      → SaveStep savers s (record s { pins = delete_key cid s.pins; owed = suc s.owed })
  -- The loop over the map under the read lock, in any order.
  copy :
      (s : Saving) (n : ℕ) (cids : List Text)
      → s.owed ≡ suc n
      → length s.saves < savers
      → IsSame cids s.pins
      → SaveStep savers s (record s { owed = n; saves = copied cids ∷ s.saves })
  -- `os.OpenFile` truncates the temporary file.
  open_tmp :
      (s : Saving) (before after : List Save) (cids : List Text)
      → s.saves ≡ before ++ copied cids ∷ after
      → SaveStep savers s (record s { tmp = partial; saves = before ++ opened cids ∷ after })
  write_tmp :
      (s : Saving) (before after : List Save) (cids : List Text)
      → s.saves ≡ before ++ opened cids ∷ after
      → SaveStep savers s (record s { tmp = whole cids; saves = before ++ written cids ∷ after })
  rename_tmp :
      (s : Saving) (before after : List Save) (cids : List Text)
      → s.saves ≡ before ++ written cids ∷ after
      → SaveStep savers s
          (record s { file = s.tmp; tmp = absent; saves = before ++ after; has_failed = false })
  -- An error of one of the calls; the temporary file is removed or stays behind.
  fail :
      (s : Saving) (before after : List Save) (save : Save) (left : Contents)
      → s.saves ≡ before ++ save ∷ after
      → SaveStep savers s (record s { tmp = left; saves = before ++ after; has_failed = true })

pub data SaveReach (savers : ℕ) (pins : List Text) : Saving → Type 0 where
  start : SaveReach savers pins (at_rest pins)
  later : (s t : Saving) → SaveReach savers pins s → SaveStep savers s t → SaveReach savers pins t

-- The keys are those of the map, or some call has still to copy it.
abbrev IsPending : Saving → List Text → Type 0
IsPending s cids = (0 < s.owed) ⊎ IsSame cids s.pins

-- What one save at a time keeps: no save is running and the file is up to date, or one is running on
-- keys that are up to date, or a call has still to copy the map.
abbrev Fits : Saving → List Save → Type 0
Fits s [] =
    (s.has_failed ≡ true)
    ⊎ ((0 < s.owed) ⊎ ((cids : List Text) × (s.file ≡ whole cids) × IsSame cids s.pins))
Fits s (copied cids ∷ []) = IsPending s cids
Fits s (opened cids ∷ []) = IsPending s cids
Fits s (written cids ∷ []) = IsPending s cids × (s.tmp ≡ whole cids)
Fits s (a ∷ b ∷ saves) = ⊥

abbrev IsOrderly : Saving → Type 0
IsOrderly s = Fits s s.saves

length-nil : (xs : List Save) → length xs ≡ 0 → xs ≡ []
length-nil [] e = refl
length-nil (x ∷ xs) e = absurd (omega (arith, e))

length-Fits : (s : Saving) (saves : List Save) → Fits s saves → length saves ≤ 1
length-Fits s [] f = omega arith
length-Fits s (a ∷ []) f = omega arith
length-Fits s (a ∷ b ∷ saves) f = absurd f

-- A list of one save that is split at a save has nothing before or behind it.
only_save :
    (s : Saving) (before after : List Save) (save : Save)
    → IsOrderly s
    → s.saves ≡ before ++ save ∷ after
    → (before ≡ []) × (after ≡ []) × Fits s (save ∷ [])
only_save s before after save o e =
    let sizes : length s.saves ≡ suc (length before + length after) =
      ap length e ∙ length-middle before after save in
    let front : before ≡ [] = length-nil before (omega (arith, sizes, length-Fits s s.saves o)) in
    let behind : after ≡ [] = length-nil after (omega (arith, sizes, length-Fits s s.saves o)) in
    let split : Fits s (before ++ save ∷ after) = rw e at o in
    (front, behind, rw (front, behind) at split)

-- A call that has changed the map owes a save, whatever is written meanwhile.
Fits-owed :
    (s t : Saving) (saves : List Save) → 0 < t.owed → t.tmp ≡ s.tmp → Fits s saves → Fits t saves
Fits-owed s t [] h e f = inr (inl h)
Fits-owed s t (copied cids ∷ []) h e f = inl h
Fits-owed s t (opened cids ∷ []) h e f = inl h
Fits-owed s t (written cids ∷ []) h e (p, w) = (inl h, e ∙ w)
Fits-owed s t (a ∷ b ∷ saves) h e f = f

copy-Fits :
    (s t : Saving) (saves : List Save) (cids : List Text)
    → length saves < 1
    → IsSame cids t.pins
    → Fits t (copied cids ∷ saves)
copy-Fits s t [] cids few same = inr same
copy-Fits s t (a ∷ saves) cids few same = absurd (omega (arith, few))

SaveStep-IsOrderly : (s t : Saving) → IsOrderly s → SaveStep 1 s t → IsOrderly t
SaveStep-IsOrderly s t o (mark _ cid) = Fits-owed s t s.saves (omega arith) refl o
SaveStep-IsOrderly s t o (unmark _ cid) = Fits-owed s t s.saves (omega arith) refl o
SaveStep-IsOrderly s t o (copy _ n cids e few same) = copy-Fits s t s.saves cids few same
SaveStep-IsOrderly s t o (open_tmp _ before after cids e) =
    let (front, behind, pending) = only_save s before after (copied cids) o e in
    rw (front, behind) pending
SaveStep-IsOrderly s t o (write_tmp _ before after cids e) =
    let (front, behind, pending) = only_save s before after (opened cids) o e in
    rw (front, behind) (pending, refl)
SaveStep-IsOrderly s t o (rename_tmp _ before after cids e) =
    let (front, behind, (pending, held)) = only_save s before after (written cids) o e in
    rw (front, behind) (inr (elim pending [ inl h ↦ inl h | inr same ↦ inr (cids, held, same) ]))
SaveStep-IsOrderly s t o (fail _ before after save left e) =
    let (front, behind, rest) = only_save s before after save o e in rw (front, behind) (inl refl)

SaveReach-IsOrderly : (pins : List Text) (s : Saving) → SaveReach 1 pins s → IsOrderly s
SaveReach-IsOrderly pins s start = inr (inr (pins, refl, λ x. refl))
SaveReach-IsOrderly pins s (later r _ reach step) =
    SaveStep-IsOrderly r s (SaveReach-IsOrderly pins r reach) step

-- If no two calls are in savePins at a time, then in any interleaving of pins and unpins, whenever
-- no save is running, no call has still to copy the map, and the last save did not fail, the state
-- file holds a list with exactly the keys of the map.
pub saved_at_rest :
    (pins : List Text) (s : Saving)
    → SaveReach 1 pins s
    → s.saves ≡ []
    → s.owed ≡ 0
    → s.has_failed ≡ false
    → (cids : List Text) × (s.file ≡ whole cids) × IsSame cids s.pins
saved_at_rest pins s reach idle paid fine =
    let o : Fits s [] = rw idle at (SaveReach-IsOrderly pins s reach) in
    elim o [
      | inl failed ↦ absurd (cc (failed, fine))
      | inr (inl h) ↦ absurd (omega (arith, h, paid))
      | inr (inr held) ↦ held
    ]
