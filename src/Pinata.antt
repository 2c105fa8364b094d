-- ===== src/Pinata.antt =====
-- pinata.go: the Pinata backend. The API is an argument: it answers a request from its state, none if
-- the request fails. JSON is decoded by an argument; PinnedCIDs takes fuel, one round for each page.
pub mod Pages
pub mod Interface
mod Tests
use pevo_pinner.Prelude.{
  ℕ, zero, suc, ◌+◌, Bool, true, false, not, Option, none, some, List, [], ◌∷◌, ◌++◌, length, ltb,
  ◌==◌, if◌then◌else◌,
}
use pevo_pinner.Prelude.Int.{ℤ, pos, negsuc}
use pevo_pinner.Prelude.Text.{Text, codes}
use pevo_pinner.Cid.{validate_cid}

pub data Method : Type 0 where
  get post delete : Method

-- What `doRequest` sends.
pub record Request : Type 0 where
  pub method : Method
  pub url : Text
  pub body : Option Text
  pub api_key : Text
  pub secret_key : Text

pub record Response : Type 0 where
  pub status_code : ℕ
  pub body : Text

pub record PinataBackend : Type 0 where
  pub api_key : Text
  pub secret_key : Text

-- What the code takes from `net/http`, `encoding/json`, `net/url` and `fmt`. `do` is the remote side.
pub record PinataOutside (S : Type 0) : Type 0 where
  pub send : Request → S → S × Option Response
  pub marshal_pin : Text → Option Text
  pub path_escape : Text → Text
  pub query_escape : Text → Text
  pub decimal : ℕ → Text
  pub decode_count : Text → Option ℤ
  pub decode_rows : Text → Option (List Text)

abbrev pub pinata_base_url : Text
pinata_base_url = codes "https://api.pinata.cloud"

unfoldable pub do_request : PinataBackend → Method → Text → Option Text → Request
do_request p method url body = record {
  method = method;
  url = url;
  body = body;
  api_key = p.api_key;
  secret_key = p.secret_key;
}

-- The tail of Pin and Unpin: true for nil.
unfoldable pub is_ok : Option Response → Bool
is_ok none = false
is_ok (some r) = r.status_code == 200

-- `result.Count > 0`
abbrev pub is_some_count : ℤ → Bool
is_some_count (pos zero) = false
is_some_count (pos (suc n)) = true
is_some_count (negsuc n) = false

module _ {S : Type 0} (out : PinataOutside S) (p : PinataBackend) where
  unfoldable pub pin : Text → S → S × Bool
  unfolding do_request is_ok
  pin cid s =
      if validate_cid cid
      then elim (out.marshal_pin cid) [
        | none ↦ (s, false)
        | some bytes ↦
            let sent =
              out.send
                (do_request p post (pinata_base_url ++ codes "/pinning/pinByHash") (some bytes))
                s in
            (sent.0, is_ok sent.1)
      ]
      else (s, false)

  unfoldable pub unpin : Text → S → S × Bool
  unfolding do_request is_ok
  unpin cid s =
      if validate_cid cid
      then (let sent =
            out.send
              (do_request p delete
                (pinata_base_url ++ (codes "/pinning/unpin/" ++ out.path_escape cid)) none)
              s in
          (sent.0, is_ok sent.1))
      else (s, false)

  -- What `IsPinned` makes of the answer.
  unfoldable pub count_of : Option Response → Option Bool
  count_of none = none
  count_of (some r) =
      if not (r.status_code == 200)
      then none
      else elim (out.decode_count r.body) [ none ↦ none | some n ↦ some (is_some_count n) ]

  unfoldable pub is_pinned : Text → S → S × Option Bool
  unfolding do_request count_of
  is_pinned cid s =
      if validate_cid cid
      then (let sent =
            out.send
              (do_request p get
                (pinata_base_url
                  ++ (codes "/data/pinList?status=pinned&hashContains=" ++ out.query_escape cid))
                none)
              s in
          (sent.0, count_of sent.1))
      else (s, none)

  unfoldable pub list_url : (page_size offset : ℕ) → Text
  list_url page_size offset =
      pinata_base_url
      ++ (codes "/data/pinList?status=pinned&pageLimit="
          ++ (out.decimal page_size ++ (codes "&pageOffset=" ++ out.decimal offset)))

  -- One request for a page: none for an error. The status is not looked at.
  unfoldable pub page : (page_size offset : ℕ) → S → S × Option (List Text)
  unfolding do_request list_url
  page page_size offset s =
      let sent = out.send (do_request p get (list_url page_size offset) none) s in
      (sent.0, elim sent.1 [ none ↦ none | some r ↦ out.decode_rows r.body ])

  -- The loop of `PinnedCIDs`; the outer none says that the fuel ran out.
  unfoldable pub page_loop :
      (fuel page_size offset : ℕ) → List Text → S → Option (S × Option (List Text))
  unfolding page
  page_loop zero page_size offset all_cids s = none
  page_loop (suc fuel) page_size offset all_cids s =
      let got = page page_size offset s in
      elim got.1 [
        | none ↦ some (got.0, none)
        | some rows ↦
            let rest = page_loop fuel page_size (offset + page_size) (all_cids ++ rows) got.0 in
            if ltb (length rows) page_size then some (got.0, some (all_cids ++ rows)) else rest
      ]

  unfoldable pub pinned_cids : (fuel : ℕ) → S → Option (S × Option (List Text))
  unfolding page_loop
  pinned_cids fuel s = page_loop fuel 1000 0 [] s
