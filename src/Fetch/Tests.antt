-- ===== src/Fetch/Tests.antt =====
-- Runs on small chains and streams, and the results applied to them.
use pevo_pinner.Prelude.{
  ◌≡◌, ◌<◌, ltb, arith, refl, ◌↔◌, ◌⊎◌, true, false, Option, none, some, List, [], ◌∷◌, ◌++◌, map,
  if◌then◌else◌,
}
use pevo_pinner.Prelude.Text.{Text, codes, same, has, IsDistinct}
use pevo_pinner.Prelude.Firsts.{firsts_by}
use pevo_pinner.Fetch.Url.{UrlPackage, trim_right_slashes, normalize_fallback_url}
use pevo_pinner.Fetch.Chain.{
  assemble_fallback_chain, compose_static_chain, default_fallback_gateways, static_head, key,
  usable, assemble_fallback_chain_lem,
}
use pevo_pinner.Fetch.Import.{
  Response, FetchError, PutFaults, flush, add_block, finish_import, import_loop,
  fetch_car_from_gateway, fetch_via_car, fetched, all_failed,
}
use pevo_pinner.Fetch.Outcome.{Serves, car_url, fetch_car_from_gateway_iff}
use pevo_pinner.Fetch.Fallback.{IsServed, gateway_of, fetch_via_car_lem}
use pevo_pinner.Fetch.Reader.{
  ReadCall, eof, drain, byte_count_reader, read, limited_read, is_not_positive, add_int64,
  sub_int64,
}
use pevo_pinner.Fetch.Counting.{drain_lem}

-- A URL is a bare host and a path that is put behind it.
abbrev bare_package : UrlPackage
bare_package = record {
  parse = λ t. some (record {
    scheme = codes "http";
    has_user = false;
    host = t;
    path = [];
    raw_query = [];
    fragment = [];
    untouched = [];
  });
  print = λ u. u.host ++ u.path;
  hostname = λ u. u.host;
  lower = λ t. t;
  trim_space = λ t. t;
}

spliced :
    assemble_fallback_chain bare_package
      (compose_static_chain (codes "m") (codes "x" ∷ []))
      (some (codes "p" ∷ codes "m" ∷ codes "https://ipfs.io" ∷ []))
    ≡ codes "m"
      ∷ codes "x"
      ∷ codes "p"
      ∷ codes "https://ipfs.io"
      ∷ codes "https://dweb.link"
      ∷ codes "https://cloudflare-ipfs.com"
      ∷ codes "https://gateway.pinata.cloud"
      ∷ []
unfolding assemble_fallback_chain compose_static_chain normalize_fallback_url trim_right_slashes has
    same
spliced = refl

assemble_fallback_chain_lem_example :
    (assemble_fallback_chain bare_package
        (compose_static_chain (codes "m") (codes "x" ∷ []))
        (some (codes "p" ∷ codes "m" ∷ []))
      ≡ firsts_by (key bare_package) [] (
          usable bare_package (
            static_head (codes "m") (codes "x" ∷ [])
            ++ ((codes "p" ∷ codes "m" ∷ []) ++ default_fallback_gateways))))
    × IsDistinct (
        map (key bare_package) (
          assemble_fallback_chain bare_package
            (compose_static_chain (codes "m") (codes "x" ∷ []))
            (some (codes "p" ∷ codes "m" ∷ []))))
assemble_fallback_chain_lem_example =
    assemble_fallback_chain_lem bare_package (codes "m") (codes "x" ∷ []) (codes "p")
      (codes "m" ∷ [])

abbrev two_blocks : Response
two_blocks = record {
  status_code = 200;
  has_header = true;
  sections = (10, codes "A") ∷ (20, codes "B") ∷ [];
  final_count = 20;
  is_eof = true;
}

-- One gateway answers, all else is unreachable.
abbrev answer : Text → Option Response
answer url = if same url (codes "g/ipfs/c") then some two_blocks else none

abbrev no_faults : PutFaults
no_faults i = none

imported_both :
    fetch_car_from_gateway 20 no_faults answer (codes "g//") (codes "c") (codes "Z" ∷ [])
    ≡ record { store = codes "Z" ∷ codes "A" ∷ codes "B" ∷ []; error = none }
unfolding fetch_car_from_gateway import_loop flush add_block finish_import same trim_right_slashes
imported_both = refl

-- Over the cap at the second block: the batch of the first is lost with it.
over_the_cap :
    fetch_car_from_gateway 19 no_faults answer (codes "g") (codes "c") []
    ≡ record { store = []; error = some FetchError.exceeded_max_pin_bytes }
unfolding fetch_car_from_gateway import_loop flush add_block finish_import same trim_right_slashes
over_the_cap = refl

answered : answer (car_url (codes "g") (codes "c")) ≡ some two_blocks
unfolding same trim_right_slashes
answered = refl

fetch_car_from_gateway_iff_example :
    ((fetch_car_from_gateway 20 no_faults answer (codes "g") (codes "c") []).error ≡ none)
    ↔ Serves 20 answer (codes "g") (codes "c")
fetch_car_from_gateway_iff_example =
    fetch_car_from_gateway_iff 20 no_faults answer (codes "g") (codes "c") [] (λ i. refl)

returned_nil : (fetch_car_from_gateway 20 no_faults answer (codes "g") (codes "c") []).error ≡ none
unfolding fetch_car_from_gateway import_loop flush add_block finish_import same trim_right_slashes
returned_nil = refl

fetch_via_car_lem_example :
    (((fetch_via_car 20
          (λ gw. no_faults)
          answer
          (codes "c")
          (codes "down" ∷ codes "g" ∷ [])
          []).outcome
        ≡ fetched)
      × IsServed 20 answer (codes "c") (codes "down" ∷ codes "g" ∷ []))
    ⊎ ((es : List (Text × FetchError)) × ((fetch_via_car 20
            (λ gw. no_faults)
            answer
            (codes "c")
            (codes "down" ∷ codes "g" ∷ [])
            []).outcome
          ≡ all_failed es)
        × (map gateway_of es ≡ codes "down" ∷ codes "g" ∷ [])
        × (IsServed 20 answer (codes "c") (codes "down" ∷ codes "g" ∷ []) → ⊥))
fetch_via_car_lem_example =
    fetch_via_car_lem 20 (λ gw. no_faults) answer (λ gw i. refl) (codes "c") (codes "down")
      (codes "g" ∷ []) []

-- Two bytes at a time, with EOF on its own.
abbrev by_two : ReadCall
by_two = record { size = 4; ready = 2; fails = false; with_last = false }

abbrev calls : List ReadCall
calls = by_two ∷ by_two ∷ by_two ∷ []

cut_short : (drain calls (byte_count_reader 2 (codes "abcde"))).error ≡ some eof
unfolding drain byte_count_reader read limited_read is_not_positive add_int64 sub_int64
cut_short = refl

drain_lem_example :
    ((drain calls (byte_count_reader 2 (codes "abcde"))).bytes ≡ codes "abc")
    × ((ltb 2 (drain calls (byte_count_reader 2 (codes "abcde"))).reader.n ≡ true) ↔ (2 < 5))
drain_lem_example = drain_lem 2 (codes "abcde") calls (omega arith) cut_short
