-- ===== src/Pinata/Tests.antt =====
-- A remote side that lists two pins, and the results applied to it.
use pevo_pinner.Prelude.{ℕ, ◌≡◌, refl, some, List, [], ◌∷◌, length, take, drop, arith}
use pevo_pinner.Prelude.Int.{pos}
use pevo_pinner.Prelude.Text.{Text, codes}
use pevo_pinner.Pinata.{PinataOutside, PinataBackend, page, list_url, do_request, pinned_cids}
use pevo_pinner.Pinata.Pages.{Lists, pinned_cids_lem}

abbrev pins : List Text
pins = codes "first" ∷ codes "second" ∷ []

-- The number at the head of a text, which the toy `decimal` writes as one byte.
abbrev head_of : Text → ℕ
head_of [] = 0
head_of (n ∷ rest) = n

abbrev page_of : Text → List Text
page_of [] = []
page_of (size ∷ rest) = take size (drop (head_of (drop 12 rest)) pins)

abbrev remote : PinataOutside (Unit {0})
remote = record {
  send = λ r s. (s, some (record { status_code = 200; body = r.url }));
  marshal_pin = λ c. some c;
  path_escape = λ c. c;
  query_escape = λ c. c;
  decimal = λ n. n ∷ [];
  decode_count = λ body. some (pos 1);
  decode_rows = λ body. some (
      page_of (
        drop (length (codes "https://api.pinata.cloud/data/pinList?status=pinned&pageLimit="))
          body));
}

abbrev keys : PinataBackend
keys = record { api_key = codes "key"; secret_key = codes "secret" }

remote-Lists : Lists remote keys pins
unfolding page list_url do_request
remote-Lists size offset s = refl

pinned_cids_lem_example : (s' : Unit {0}) × (pinned_cids remote keys 1 tt ≡ some (s', some pins))
pinned_cids_lem_example = pinned_cids_lem remote keys pins remote-Lists tt 1 (omega arith)
