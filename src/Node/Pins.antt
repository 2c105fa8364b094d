-- ===== src/Node/Pins.antt =====
-- When Pin returns nil and what becomes of the pin set, and what the gateway serves of it.
use pevo_pinner.Prelude.{
  ◌≡◌, refl, sym, ◌∙◌, inl, inr, Bool, true, false, not, ◌&&◌, ◌||◌, Option, none, some, List, [],
  ◌∷◌, arith, if◌then◌else◌, Bool-cases, Option-cases,
}
use pevo_pinner.Prelude.Text.{Text, same, same_iff, has}
use pevo_pinner.Cid.{validate_cid}
use pevo_pinner.AtomicFile.{Faults, atomic_write_file}
use pevo_pinner.AtomicFile.Crash.{atomic_write_file_lem}
use pevo_pinner.Fetch.Import.{
  Block, ViaCar, FetchedStore, fetch_via_car, fetched, no_gateways, all_failed,
}
use pevo_pinner.Node.{
  EmbeddedNode, Outside, PinError, add_key, delete_key, load_keys, save_pins, mark_pinned,
  pin_via_car, pin, unpin, load_pins,
}

has-add_key : (k x : Text) (pins : List Text) → has x (add_key k pins) ≡ (same k x || has x pins)
unfolding add_key has
has-add_key k x pins = elim (Bool-cases (has k pins)) [
  | inl known ↦ rw (known, add_key) (ground (arith, known, same_iff k x))
  | inr new ↦ rw (new, add_key) refl
]

has-delete_key :
    (k x : Text) (pins : List Text) → has x (delete_key k pins) ≡ (not (same k x) && has x pins)
unfolding delete_key has
has-delete_key k x [] = ground arith
has-delete_key k x (p ∷ ps) =
    ground (arith, has-delete_key k x ps, same_iff p k, same_iff p x, same_iff k x)

has-load_keys :
    (x : Text) (cs pins : List Text) → has x (load_keys cs pins) ≡ (has x cs || has x pins)
unfolding load_keys has
has-load_keys x [] pins = refl
has-load_keys x (c ∷ cs) pins =
    ground (arith, has-load_keys x cs (add_key c pins), has-add_key c x pins)

module _ (out : Outside) where
  pins-save_pins : (f : Faults) (n : EmbeddedNode) → (save_pins out f n).pins ≡ n.pins
  unfolding save_pins
  pins-save_pins f n = elim (Option-cases (out.marshal n.pins)) [
    | inl e ↦ rw (e, save_pins)
    | inr (bytes, e) ↦ rw (e, save_pins)
  ]

  -- The fallback chain gets the whole graph, starting from a block store.
  abbrev pub is_served_by_car : (k : Text) → List Block → ViaCar → Bool
  is_served_by_car k store fetched = out.walk store k
  is_served_by_car k store no_gateways = false
  is_served_by_car k store (all_failed errs) = false

  abbrev pub via_car : EmbeddedNode → (k : Text) → FetchedStore
  via_car n k =
      fetch_via_car n.max_pin_bytes out.put_faults out.get k out.chain
        (out.fetch_graph n.blockstore k).0

  -- The node accepts pins, the CID is valid and can be decoded, and bitswap gets the graph, or the
  -- fallback chain does.
  abbrev pub is_ready : Text → EmbeddedNode → Bool
  is_ready c n = not n.done && validate_cid c && elim (out.decode c) [
    | none ↦ false
    | some k ↦
        (out.fetch_graph n.blockstore k).1
        || is_served_by_car k (via_car n k).store (via_car n k).outcome
  ]

  -- The result of Pin: nil, with the CID in the set, or an error with the set and the files kept.
  abbrev pub Settles : Text → EmbeddedNode → Bool → EmbeddedNode × Option PinError → Type 0
  Settles c n ready (m, none) =
      (ready ≡ true) × ((x : Text) → has x m.pins ≡ (same c x || has x n.pins))
  Settles c n ready (m, some e) = (ready ≡ false) × (m.pins ≡ n.pins) × (m.fs ≡ n.fs)

  mark_pinned-Settles :
      (f : Faults) (c : Text) (n m : EmbeddedNode)
      → m.pins ≡ n.pins
      → Settles c n true (mark_pinned out f c m, none)
  unfolding mark_pinned
  mark_pinned-Settles f c n m e = (
    refl,
    λ x.
        rw (pins-save_pins f (record m { pins = add_key c m.pins }))
          (rw e (has-add_key c x n.pins)),
  )

  car_outcome-Settles :
      (f : Faults) (c k : Text) (n m : EmbeddedNode) (store : List Block) (o : ViaCar)
      → m.pins ≡ n.pins
      → m.fs ≡ n.fs
      → Settles c n (is_served_by_car k store o) (elim o [
        | fetched ↦
            if out.walk store k
            then (mark_pinned out f c (record m { blockstore = store }), none)
            else (record m { blockstore = store }, some PinError.incomplete)
        | no_gateways ↦ (record m { blockstore = store }, some PinError.fallback_failed)
        | all_failed errs ↦ (record m { blockstore = store }, some PinError.fallback_failed)
      ])
  car_outcome-Settles f c k n m bs fetched e h = elim (Bool-cases (out.walk bs k)) [
    | inl whole ↦ rw whole (mark_pinned-Settles f c n (record m { blockstore = bs }) e)
    | inr partial ↦ rw partial (refl, e, h)
  ]
  car_outcome-Settles f c k n m bs no_gateways e h = (refl, e, h)
  car_outcome-Settles f c k n m bs (all_failed errs) e h = (refl, e, h)

  -- Pin returns nil exactly when the node accepts pins, the CID is valid and can be decoded, and
  -- bitswap gets the graph or the fallback chain does and the offline walk finds it whole; the CID
  -- is then added to the pins and no other is changed; with an error the pins and the files stay as
  -- they were.
  pub pin-Settles :
      (f : Faults) (c : Text) (n : EmbeddedNode) → Settles c n (is_ready c n) (pin out f c n)
  unfolding pin pin_via_car
  pin-Settles f c n = elim (Bool-cases n.done) [
    | inl down ↦ simp (down, pin) (refl, refl, refl)
    | inr up ↦ elim (Bool-cases (validate_cid c)) [
      | inr bad ↦ simp (up, bad, pin) (refl, refl, refl)
      | inl good ↦ elim (Option-cases (out.decode c)) [
        | inl e ↦ simp (up, good, e, pin) (refl, refl, refl)
        | inr (k, e) ↦ elim (Bool-cases (out.fetch_graph n.blockstore k).1) [
          | inl got ↦
              simp (up, good, e, got, pin)
                (mark_pinned-Settles f c n
                  (record n { blockstore = (out.fetch_graph n.blockstore k).0; done = false }) refl)
          | inr missed ↦
              simp (up, good, e, missed, pin)
                (car_outcome-Settles f c k n
                  (record n { blockstore = (out.fetch_graph n.blockstore k).0; done = false })
                  (via_car n k).store (via_car n k).outcome refl refl)
        ]
      ]
    ]
  ]

  -- Unpin of a valid CID takes it out of the pins and keeps every other, and Unpin of an invalid
  -- CID changes no pin.
  pub has-unpin :
      (f : Faults) (c x : Text) (n : EmbeddedNode)
      → has x (unpin out f c n).0.pins ≡ (not (validate_cid c && same c x) && has x n.pins)
  unfolding unpin
  has-unpin f c x n = elim (Bool-cases (validate_cid c)) [
    | inl good ↦
        rw (good, unpin)
          (rw (pins-save_pins f (record n { pins = delete_key c n.pins }))
            (has-delete_key c x n.pins))
    | inr bad ↦ rw (bad, unpin)
  ]

-- A process that starts on the files of a node.
abbrev pub restarted : EmbeddedNode → EmbeddedNode
restarted n = record n { pins = []; done = false }

-- If the pins can be encoded, the bytes decode to the same set of CIDs, and the write of the state
-- file succeeds, then a process that starts on the files after a save has the same pins.
pub has-load_pins :
    (out : Outside) (f : Faults) (n : EmbeddedNode) (bytes : Text) (cids : List Text) (x : Text)
    → out.marshal n.pins ≡ some bytes
    → out.unmarshal bytes ≡ some cids
    → ((y : Text) → has y cids ≡ has y n.pins)
    → (atomic_write_file f n.fs n.pin_file bytes).1 ≡ true
    → has x (load_pins out (restarted (save_pins out f n))).pins ≡ has x n.pins
unfolding load_pins save_pins has
has-load_pins out f n bytes cids x e d same_keys w =
    let or_false : (has x cids || has x []) ≡ has x cids = ground arith in
    elim (atomic_write_file_lem f n.fs n.pin_file bytes) [
      | inr (bad, kept) ↦ let absurd : true ≡ false = sym w ∙ bad in cc
      | inl (good, stored, no_tmp) ↦
          rw (e, load_pins, save_pins)
            (rw stored (rw d (has-load_keys x cids [] ∙ or_false ∙ same_keys x)))
    ]
