-- ===== src/Fetch/Laws.antt =====
-- What an import leaves in the block store: a first part of the stream, in order.
use pevo_pinner.Prelude.{
  ℕ, suc, ◌≡◌, refl, sym, ap, ◌∙◌, inl, inr, Bool, true, false, some, List, [], ◌∷◌, ◌++◌,
  append-nil, append_assoc, length, take, drop, take-append-drop, ltb, leb, arith, if◌then◌else◌,
  Bool-cases, Option-cases,
}
use pevo_pinner.Prelude.Text.{is_empty}
use pevo_pinner.Fetch.Import.{
  Block, Response, FetchError, PutFaults, Import, flush, add_block, Imported, finish_import,
  import_loop,
}

abbrev pub blocks_of : List (ℕ × Block) → List Block
blocks_of [] = []
blocks_of ((n, blk) ∷ rest) = blk ∷ blocks_of rest

-- The sections before the first one that is over the cap.
abbrev pub under_cap : ℕ → List (ℕ × Block) → List (ℕ × Block)
under_cap cap [] = []
under_cap cap ((n, blk) ∷ rest) = if ltb cap n then [] else (n, blk) ∷ under_cap cap rest

-- The store was extended by a first part of the blocks.
abbrev pub Extends : List Block → List Block → List Block → Type 0
Extends before after bs =
    (r : List Block) × (rest : List Block) × (after ≡ before ++ r) × (r ++ rest ≡ bs)

-- After a flush: what was pending is stored up to some point, all of it if the flush is said to work.
abbrev pub Flushes : Import → List Block → Import × Bool → Type 0
Flushes st pending (done, ok) =
    (r : List Block) × (done.store ≡ st.store ++ r)
    × (if ok then r ++ done.batch ≡ pending else (rest : List Block) × (r ++ rest ≡ pending))

flush-Flushes : (faults : PutFaults) (st : Import) → Flushes st st.batch (flush faults st)
unfolding flush
flush-Flushes faults st = elim (Bool-cases (is_empty st.batch)) [
  | inl e ↦ rw (e, flush) ([], sym (append-nil st.store), refl)
  | inr e ↦ elim (Option-cases (faults st.puts)) [
    | inl f ↦ rw (e, f, flush) (st.batch, refl, append-nil st.batch)
    | inr (n, f) ↦
        rw (e, f, flush) (take n st.batch, refl, (drop n st.batch, take-append-drop n st.batch))
  ]
]

pub add_block-Flushes :
    (faults : PutFaults) (blk : Block) (st : Import)
    → Flushes st (st.batch ++ blk ∷ []) (add_block faults blk st)
unfolding add_block
add_block-Flushes faults blk st =
    let grown = record st { batch = st.batch ++ blk ∷ []; imported = suc st.imported } in
    elim (Bool-cases (leb 256 (length (st.batch ++ blk ∷ [])))) [
      | inl full ↦ rw (full, add_block) (flush-Flushes faults grown)
      | inr room ↦ rw (room, add_block) ([], sym (append-nil st.store), refl)
    ]

finish_import-Extends :
    (st : Import) (p : Import × Bool)
    → Flushes st st.batch p
    → Extends st.store (finish_import p).store (st.batch ++ [])
unfolding finish_import
finish_import-Extends st (done, false) (r, e, (rest, q)) =
    (r, rest, e, q ∙ sym (append-nil st.batch))
finish_import-Extends st (done, true) (r, e, q) =
    (r, done.batch, ground (arith, e), q ∙ sym (append-nil st.batch))

-- One more block, from what the flush did and what the rest of the loop does.
block-Extends :
    (st : Import) (pending bs : List Block) (p : Import × Bool) (later : Imported)
    → Flushes st pending p
    → Extends p.0.store later.store (p.0.batch ++ bs)
    → Extends st.store
        (if p.1
          then later
          else record { store = p.0.store; error = some FetchError.put_many }).store
        (pending ++ bs)
block-Extends st pending bs (done, false) later (r, e, (rest, q)) h =
    (r, rest ++ bs, e, sym (append_assoc r rest bs) ∙ ap (λ x. x ++ bs) q)
block-Extends st pending bs (done, true) later (r, e, q) (r2, rest, e2, q2) = (
  r ++ r2,
  rest,
  e2 ∙ ap (λ x. x ++ r2) e ∙ append_assoc st.store r r2,
  append_assoc r r2 rest
      ∙ ap (◌++◌ r) q2
      ∙ sym (append_assoc r done.batch bs)
      ∙ ap (λ x. x ++ bs) q,
)

module _ (cap : ℕ) (faults : PutFaults) (r : Response) where
  pub import_loop-Extends :
      (secs : List (ℕ × Block)) (st : Import)
      → Extends st.store
          (import_loop cap faults r secs st).store
          (st.batch ++ blocks_of (under_cap cap secs))
  unfolding import_loop
  import_loop-Extends [] st =
      let nothing : Extends st.store st.store (st.batch ++ []) =
        ([], st.batch ++ [], sym (append-nil st.store), refl) in
      elim (Bool-cases (ltb cap r.final_count)) [
        | inl over ↦ rw (over, import_loop) nothing
        | inr under ↦ elim (Bool-cases r.is_eof) [
          | inl eof ↦
              rw (under, eof, import_loop)
                (finish_import-Extends st (flush faults st) (flush-Flushes faults st))
          | inr broken ↦ rw (under, broken, import_loop) nothing
        ]
      ]
  import_loop-Extends ((n, blk) ∷ rest) st = elim (Bool-cases (ltb cap n)) [
    | inl over ↦ rw (over, import_loop) ([], st.batch ++ [], sym (append-nil st.store), refl)
    | inr under ↦
        rw (under, import_loop)
          (rw (append_assoc st.batch (blk ∷ []) (blocks_of (under_cap cap rest))) at (
            block-Extends st (st.batch ++ blk ∷ []) (blocks_of (under_cap cap rest))
              (add_block faults blk st) (import_loop cap faults r rest (add_block faults blk st).0)
              (add_block-Flushes faults blk st)
              (import_loop-Extends rest (add_block faults blk st).0)))
  ]
