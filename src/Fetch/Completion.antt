-- ===== src/Fetch/Completion.antt =====
-- When an import returns nil, and that the whole stream is stored then.
use pevo_pinner.Prelude.{
  ℕ, suc, ◌+◌, ◌≤◌, ◌≡◌, refl, sym, ap, ◌∙◌, ◌≢◌, inl, inr, Bool, true, false, none, some, List, [],
  ◌∷◌, ◌++◌, append-nil, append_assoc, length, ltb, ◌==◌, All, arith, Bool-cases, Option-cases,
}
use pevo_pinner.Prelude.Text.{is_empty}
use pevo_pinner.Fetch.Import.{
  Block, Response, FetchError, PutFaults, Import, flush, add_block, finish_import, import_loop,
}
use pevo_pinner.Fetch.Laws.{blocks_of, add_block-Flushes}

-- The stream ended within the cap, and with at least one block.
abbrev pub IsWhole : ℕ → Response → Type 0
IsWhole cap r =
    All (λ (n, blk). n ≤ cap) r.sections
    × (r.final_count ≤ cap)
    × (r.is_eof ≡ true)
    × (length r.sections ≢ 0)

flush_ok :
    (faults : PutFaults) (st : Import)
    → (flush faults st).1 ≡ true
    → (flush faults st).0.store ≡ st.store ++ st.batch
unfolding flush
flush_ok faults st = elim (Bool-cases (is_empty st.batch)) [
  | inl e ↦
      let bare : st.batch ≡ [] = ground (arith, e) in
      rw (e, flush) (λ _. rw bare (sym (append-nil st.store)))
  | inr e ↦ elim (Option-cases (faults st.puts)) [
    | inl f ↦ rw (e, f, flush) (λ _. refl)
    | inr (n, f) ↦ rw (e, f, flush) (λ h. cc)
  ]
]

flush-imported : (faults : PutFaults) (st : Import) → (flush faults st).0.imported ≡ st.imported
unfolding flush
flush-imported faults st = ground arith

add_block-imported :
    (faults : PutFaults) (blk : Block) (st : Import)
    → (add_block faults blk st).0.imported ≡ suc st.imported
unfolding add_block
add_block-imported faults blk st = ground (
  arith,
  flush-imported faults (record st { batch = st.batch ++ blk ∷ []; imported = suc st.imported }),
)

add_block_ok :
    (faults : PutFaults) (blk : Block) (st : Import)
    → (add_block faults blk st).1 ≡ true
    → (add_block faults blk st).0.store ++ (add_block faults blk st).0.batch
      ≡ st.store ++ (st.batch ++ blk ∷ [])
add_block_ok faults blk st h =
    let (r, e, q) = add_block-Flushes faults blk st in
    let whole : r ++ (add_block faults blk st).0.batch ≡ st.batch ++ blk ∷ [] = rw h at q in
    ap (λ x. x ++ (add_block faults blk st).0.batch) e
    ∙ append_assoc st.store r (add_block faults blk st).0.batch
    ∙ ap (◌++◌ st.store) whole

-- What a nil result says of the sections from here on, and of the store.
abbrev pub Completes : ℕ → Response → List (ℕ × Block) → Import → List Block → Type 0
Completes cap r secs st after =
    All (λ (n, blk). n ≤ cap) secs
    × (r.final_count ≤ cap)
    × (r.is_eof ≡ true)
    × (st.imported + length secs ≢ 0)
    × (after ≡ st.store ++ (st.batch ++ blocks_of secs))

finish_import_sound :
    (faults : PutFaults) (st : Import) (p : Import × Bool)
    → p.0.imported ≡ st.imported
    → (p.1 ≡ true → p.0.store ≡ st.store ++ st.batch)
    → (finish_import p).error ≡ none
    → (st.imported + 0 ≢ 0) × ((finish_import p).store ≡ st.store ++ (st.batch ++ []))
unfolding finish_import
finish_import_sound faults st (done, false) i e h = cc
finish_import_sound faults st (done, true) i e h = elim (Bool-cases (done.imported == 0)) [
  | inl bare ↦ let absurd : some FetchError.no_blocks ≡ none = rw bare at h in cc
  | inr good ↦ (ground (arith, good, i), rw good (rw (append-nil st.batch) (e refl)))
]

module _ (cap : ℕ) (faults : PutFaults) (r : Response) where
  pub import_loop_sound :
      (secs : List (ℕ × Block)) (st : Import)
      → (import_loop cap faults r secs st).error ≡ none
      → Completes cap r secs st (import_loop cap faults r secs st).store
  unfolding import_loop
  import_loop_sound [] st = elim (Bool-cases (ltb cap r.final_count)) [
    | inl over ↦ rw (over, import_loop) (λ h. cc)
    | inr under ↦ elim (Bool-cases r.is_eof) [
      | inr broken ↦ rw (under, broken, import_loop) (λ h. cc)
      | inl eof ↦
          rw (under, eof, import_loop)
            (λ h.
              let (i, e) =
                finish_import_sound faults st (flush faults st) (flush-imported faults st)
                  (flush_ok faults st) h in
              (tt, ground (arith, under), refl, i, e))
    ]
  ]
  import_loop_sound ((n, blk) ∷ rest) st = elim (Bool-cases (ltb cap n)) [
    | inl over ↦ rw (over, import_loop) (λ h. cc)
    | inr under ↦ elim (Bool-cases (add_block faults blk st).1) [
      | inr failed ↦ rw (under, failed, import_loop) (λ h. cc)
      | inl ok ↦
          rw (under, ok, import_loop)
            (λ h.
              let (all, f, eof, i, e) = import_loop_sound rest (add_block faults blk st).0 h in
              (
                (ground (arith, under), all),
                f,
                eof,
                omega (arith, i, add_block-imported faults blk st),
                e
                    ∙ sym (append_assoc _ _ (blocks_of rest))
                    ∙ ap (λ x. x ++ blocks_of rest) (add_block_ok faults blk st ok)
                    ∙ append_assoc st.store (st.batch ++ blk ∷ []) (blocks_of rest)
                    ∙ ap (◌++◌ st.store) (append_assoc st.batch (blk ∷ []) (blocks_of rest)),
              ))
    ]
  ]

finish_import_complete :
    (p : Import × Bool) → p.1 ≡ true → p.0.imported ≢ 0 → (finish_import p).error ≡ none
unfolding finish_import
finish_import_complete (done, false) h n = cc
finish_import_complete (done, true) h n = ground (arith, n)

module _ (cap : ℕ) (faults : PutFaults) (clean : (i : ℕ) → faults i ≡ none) (r : Response) where
  flush_complete : (st : Import) → (flush faults st).1 ≡ true
  unfolding flush
  flush_complete st = elim (Bool-cases (is_empty st.batch)) [
    | inl e ↦ rw (e, flush)
    | inr e ↦ rw (e, clean st.puts, flush)
  ]

  add_block_complete : (blk : Block) (st : Import) → (add_block faults blk st).1 ≡ true
  unfolding add_block
  add_block_complete blk st =
      let grown = record st { batch = st.batch ++ blk ∷ []; imported = suc st.imported } in
      ground (arith, flush_complete grown)

  pub import_loop_complete :
      (secs : List (ℕ × Block)) (st : Import)
      → All (λ (n, blk). n ≤ cap) secs
      → r.final_count ≤ cap
      → r.is_eof ≡ true
      → st.imported + length secs ≢ 0
      → (import_loop cap faults r secs st).error ≡ none
  unfolding import_loop
  import_loop_complete [] st all f eof some_block =
      let under : ltb cap r.final_count ≡ false = ground (arith, f) in
      rw (under, eof, import_loop)
        (finish_import_complete (flush faults st) (flush_complete st)
          (omega (arith, some_block, flush-imported faults st)))
  import_loop_complete ((n, blk) ∷ rest) st (q, all) f eof some_block =
      let under : ltb cap n ≡ false = ground (arith, q) in
      rw (under, add_block_complete blk st, import_loop)
        (import_loop_complete rest (add_block faults blk st).0 all f eof
          (omega (arith, add_block-imported faults blk st)))
