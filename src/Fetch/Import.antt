-- ===== src/Fetch/Import.antt =====
-- ipfsnode_fetch.go: fetchCARFromGateway and fetchViaCAR. What a gateway answers is an argument: the
-- blocks of the CAR stream, each with the bytes counted when `Next` returned it, and how it ends.
use pevo_pinner.Prelude.{
  ℕ, suc, Bool, true, false, not, Option, none, some, List, [], ◌∷◌, ◌++◌, length, take, ltb, leb,
  ◌==◌, if◌then◌else◌,
}
use pevo_pinner.Prelude.Text.{Text, codes, is_empty}
use pevo_pinner.Fetch.Url.{trim_right_slashes}

-- A verified block, as its bytes.
abbrev pub Block : Type 0
Block = Text

abbrev pub car_import_batch_size : ℕ
car_import_batch_size = 256

pub record Response : Type 0 where
  pub status_code : ℕ
  -- `NewBlockReader` accepted the header.
  pub has_header : Bool
  pub sections : List (ℕ × Block)
  -- The bytes counted when `Next` failed, and whether it failed with `io.EOF`.
  pub final_count : ℕ
  pub is_eof : Bool

pub data FetchError : Type 0 where
  request : FetchError
  status : (code : ℕ) → FetchError
  car_header : FetchError
  exceeded_max_pin_bytes : FetchError
  car_block : (imported : ℕ) → FetchError
  put_many : FetchError
  no_blocks : FetchError

-- The outcome of each call of `PutMany`, by its number: none if all blocks are stored, else the
-- number of blocks that were stored before the error.
abbrev pub PutFaults : Type 0
PutFaults = ℕ → Option ℕ

-- The blocks in the store, the batch, `imported`, and the number of calls of `PutMany`.
pub record Import : Type 0 where
  pub store : List Block
  pub batch : List Block
  pub imported : ℕ
  pub puts : ℕ

-- The closure `flush`; true stands for nil.
unfoldable pub flush : PutFaults → Import → Import × Bool
flush faults st = if is_empty st.batch then (st, true) else elim (faults st.puts) [
  | none ↦ (record st { store = st.store ++ st.batch; batch = []; puts = suc st.puts }, true)
  | some n ↦ (record st { store = st.store ++ take n st.batch; puts = suc st.puts }, false)
]

-- A block under the cap: append, count, and flush if the batch is full.
unfoldable pub add_block : PutFaults → Block → Import → Import × Bool
add_block faults blk st =
    let next = record st { batch = st.batch ++ blk ∷ []; imported = suc st.imported } in
    if leb car_import_batch_size (length next.batch) then flush faults next else (next, true)

-- The store and the error; none: nil.
pub record Imported : Type 0 where
  pub store : List Block
  pub error : Option FetchError

abbrev fail : Import → FetchError → Imported
fail st e = record { store = st.store; error = some e }

unfoldable pub finish_import : Import × Bool → Imported
finish_import (st, false) = fail st put_many
finish_import (st, true) =
    if st.imported == 0 then fail st no_blocks else record { store = st.store; error = none }

module _ (max_pin_bytes : ℕ) (faults : PutFaults) where
  unfoldable pub import_loop : Response → List (ℕ × Block) → Import → Imported
  unfolding finish_import
  import_loop r [] st =
      if ltb max_pin_bytes r.final_count
      then fail st exceeded_max_pin_bytes
      else (if r.is_eof then finish_import (flush faults st) else fail st (car_block st.imported))
  import_loop r ((n, blk) ∷ rest) st =
      let added = add_block faults blk st in
      let later = import_loop r rest added.0 in
      if ltb max_pin_bytes n
      then fail st exceeded_max_pin_bytes
      else (if added.1 then later else fail added.0 put_many)

  -- `get` is the HTTP client: none stands for an error.
  unfoldable pub fetch_car_from_gateway :
      (get : Text → Option Response) → (gw cid : Text) → List Block → Imported
  unfolding import_loop
  fetch_car_from_gateway get gw cid store =
      elim (get (trim_right_slashes gw ++ (codes "/ipfs/" ++ cid))) [
        | none ↦ record { store = store; error = some request }
        | some r ↦
            if not (r.status_code == 200)
            then record { store = store; error = some (status r.status_code) }
            else (if r.has_header
                then import_loop r r.sections
                    (record { store = store; batch = []; imported = 0; puts = 0 })
                else record { store = store; error = some car_header })
      ]

pub data ViaCar : Type 0 where
  fetched : ViaCar
  no_gateways : ViaCar
  all_failed : (errs : List (Text × FetchError)) → ViaCar

pub record FetchedStore : Type 0 where
  pub store : List Block
  pub outcome : ViaCar

-- The rest of the loop over the chain, with the errors so far. `faults` are those of one gateway.
module _ (max_pin_bytes : ℕ) (faults : Text → PutFaults) (get : Text → Option Response) where
  unfoldable pub gateway_loop :
      (cid : Text) → List Text → List (Text × FetchError) → List Block → FetchedStore
  unfolding fetch_car_from_gateway
  gateway_loop cid [] errs store = record { store = store; outcome = all_failed errs }
  gateway_loop cid (gw ∷ gws) errs store =
      let tried = fetch_car_from_gateway max_pin_bytes (faults gw) get gw cid store in
      elim tried.error [
        | none ↦ record { store = tried.store; outcome = fetched }
        | some e ↦ gateway_loop cid gws (errs ++ (gw, e) ∷ []) tried.store
      ]

  unfoldable pub fetch_via_car : (cid : Text) → (chain : List Text) → List Block → FetchedStore
  unfolding gateway_loop
  fetch_via_car cid [] store = record { store = store; outcome = no_gateways }
  fetch_via_car cid (gw ∷ gws) store = gateway_loop cid (gw ∷ gws) [] store
