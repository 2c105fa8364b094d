-- ===== src/Node/Saves/Tests.antt =====
-- Runs of savePins, and the result applied to one.
use pevo_pinner.Prelude.{◌≡◌, refl, false, List, [], ◌∷◌, arith}
use pevo_pinner.Prelude.Text.{Text, codes, has, same}
use pevo_pinner.Node.{add_key}
use pevo_pinner.Node.Saves.{
  Saving, SaveReach, start, later, mark, copy, open_tmp, write_tmp, rename_tmp, copied, whole,
  absent, at_rest, saved_at_rest,
}

abbrev a_only : List Text
a_only = codes "a" ∷ []

abbrev both : List Text
both = codes "b" ∷ codes "a" ∷ []

-- Two saves at a time: the older copy is written last.
abbrev stale : Saving
stale = record {
  pins = both;
  file = whole a_only;
  tmp = absent;
  owed = 0;
  saves = [];
  has_failed = false;
}

overtaken : SaveReach 2 [] stale
unfolding add_key has same
overtaken =
    later _ _
      (later _ _
        (later _ _
          (later _ _
            (later _ _
              (later _ _
                (later _ _
                  (later _ _
                    (later _ _ (later _ _ start (mark (at_rest []) (codes "a")))
                      (copy _ 0 a_only refl (omega arith) (λ x. refl)))
                    (mark _ (codes "b")))
                  (copy _ 0 both refl (omega arith) (λ x. refl)))
                (open_tmp _ [] (copied a_only ∷ []) both refl))
              (write_tmp _ [] (copied a_only ∷ []) both refl))
            (rename_tmp _ [] (copied a_only ∷ []) both refl))
          (open_tmp _ [] [] a_only refl))
        (write_tmp _ [] [] a_only refl))
      (rename_tmp _ [] [] a_only refl)

-- One save after a pin, in the order of markPinned.
abbrev saved : Saving
saved = record (at_rest []) { pins = a_only; file = whole a_only }

saved_reached : SaveReach 1 [] saved
unfolding add_key has same
saved_reached =
    later _ _
      (later _ _
        (later _ _
          (later _ _ (later _ _ start (mark (at_rest []) (codes "a")))
            (copy _ 0 a_only refl (omega arith) (λ x. refl)))
          (open_tmp _ [] [] a_only refl))
        (write_tmp _ [] [] a_only refl))
      (rename_tmp _ [] [] a_only refl)

saved_at_rest_example :
    (cids : List Text) × (saved.file ≡ whole cids) × ((x : Text) → has x cids ≡ has x a_only)
saved_at_rest_example = saved_at_rest [] saved saved_reached refl refl refl
