-- ===== src/Node.antt =====
-- ipfsnode.go: the pin set of the embedded node, with Pin, Unpin, IsPinned and their state file, and
-- ipfsnode_gateway.go: gatewayGuard. Bitswap, the graph walk and the CID decoder are arguments.
pub mod Pins
pub mod Guard
pub mod Drain
pub mod Saves
pub mod Interface
pub mod Lifecycle
pub mod PeerKey
pub mod Host
pub mod Tests
use pevo_pinner.Prelude.{
  ℕ, Bool, true, false, not, ◌&&◌, ◌||◌, Option, none, some, List, [], ◌∷◌, ◌++◌, if◌then◌else◌,
}
use pevo_pinner.Prelude.Text.{Text, codes, is_empty, same, has, strip_prefix, before}
use pevo_pinner.Cid.{validate_cid}
use pevo_pinner.AtomicFile.{Fs, Faults, atomic_write_file}
use pevo_pinner.Fetch.Import.{
  Block, Response, PutFaults, ViaCar, FetchedStore, fetch_via_car, fetched, no_gateways, all_failed,
}

-- `pins` are the keys of the map; `done` says that the channel is closed.
pub record EmbeddedNode : Type 0 where
  pub pins : List Text
  pub pin_file : Text
  pub fs : Fs
  pub blockstore : List Block
  pub max_pin_bytes : ℕ
  pub done : Bool

-- What the code takes from the IPFS packages, `encoding/json` and the network. `fetch_graph` gives
-- the block store after the bitswap session and whether it had every block, `walk` is the offline
-- walk, `chain` the fallback chain at the time of the call.
pub record Outside : Type 0 where
  pub decode : Text → Option Text
  pub fetch_graph : List Block → Text → List Block × Bool
  pub walk : List Block → Text → Bool
  pub chain : List Text
  pub get : Text → Option Response
  pub put_faults : Text → PutFaults
  pub marshal : List Text → Option Text
  pub unmarshal : Text → Option (List Text)

pub data PinError : Type 0 where
  pinner_shutting_down : PinError
  invalid_cid : PinError
  undecodable : PinError
  fallback_failed : PinError
  incomplete : PinError

unfoldable pub add_key : Text → List Text → List Text
add_key k pins = if has k pins then pins else k ∷ pins

unfoldable pub delete_key : Text → List Text → List Text
delete_key k [] = []
delete_key k (p ∷ ps) = let rest = delete_key k ps in if same p k then rest else p ∷ rest

-- The loop of `loadPins`.
unfoldable pub load_keys : List Text → List Text → List Text
load_keys [] pins = pins
load_keys (c ∷ cs) pins = load_keys cs (add_key c pins)

module _ (out : Outside) where
  -- Errors are logged only.
  unfoldable pub save_pins : Faults → EmbeddedNode → EmbeddedNode
  save_pins f n = elim (out.marshal n.pins) [
    | none ↦ n
    | some bytes ↦ record n { fs = (atomic_write_file f n.fs n.pin_file bytes).0 }
  ]

  unfoldable pub mark_pinned : Faults → Text → EmbeddedNode → EmbeddedNode
  unfolding save_pins
  mark_pinned f c n = save_pins f (record n { pins = add_key c n.pins })

  -- From the fallback chain on.
  unfoldable pub pin_via_car : Faults → (c k : Text) → EmbeddedNode → EmbeddedNode × Option PinError
  unfolding mark_pinned
  pin_via_car f c k n =
      let car = fetch_via_car n.max_pin_bytes out.put_faults out.get k out.chain n.blockstore in
      let n2 = record n { blockstore = car.store } in
      elim car.outcome [
        | fetched ↦
            if out.walk car.store k then (mark_pinned f c n2, none) else (n2, some incomplete)
        | no_gateways ↦ (n2, some fallback_failed)
        | all_failed errs ↦ (n2, some fallback_failed)
      ]

  unfoldable pub pin : Faults → Text → EmbeddedNode → EmbeddedNode × Option PinError
  unfolding pin_via_car mark_pinned
  pin f c n =
      if n.done
      then (n, some pinner_shutting_down)
      else (if validate_cid c
          then elim (out.decode c) [
            | none ↦ (n, some undecodable)
            | some k ↦
                let swap = out.fetch_graph n.blockstore k in
                let n2 = record n { blockstore = swap.0 } in
                if swap.1 then (mark_pinned f c n2, none) else pin_via_car f c k n2
          ]
          else (n, some invalid_cid))

  -- The Boolean is true for a nil error.
  unfoldable pub unpin : Faults → Text → EmbeddedNode → EmbeddedNode × Bool
  unfolding save_pins delete_key
  unpin f c n =
      if validate_cid c
      then (save_pins f (record n { pins = delete_key c n.pins }), true)
      else (n, false)

  -- `loadPins`; an error leaves the set as it is.
  unfoldable pub load_pins : EmbeddedNode → EmbeddedNode
  unfolding load_keys add_key
  load_pins n = elim (n.fs n.pin_file) [
    | none ↦ n
    | some bytes ↦ elim (out.unmarshal bytes) [
      | none ↦ n
      | some cids ↦ record n { pins = load_keys cids n.pins }
    ]
  ]

-- none: the error of ValidateCID.
unfoldable pub is_pinned : Text → EmbeddedNode → Option Bool
is_pinned c n = if validate_cid c then some (has c n.pins) else none

pub data Verdict : Type 0 where
  forwarded : Verdict
  missing_cid : Verdict
  bad_cid : Verdict
  not_pinned : Verdict

-- The answers are 400, 400 and 404.
unfoldable pub gateway_guard : EmbeddedNode → (path : Text) → Verdict
gateway_guard n path = elim (strip_prefix (codes "/ipfs/") path) [
  | none ↦ forwarded
  | some rest ↦
      let raw = before b'/' rest in
      if is_empty raw
      then missing_cid
      else (if validate_cid raw
          then (if has raw n.pins then forwarded else not_pinned)
          else bad_cid)
]
