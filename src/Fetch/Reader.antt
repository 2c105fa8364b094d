-- ===== src/Fetch/Reader.antt =====
-- ipfsnode_fetch.go: byteCountReader over `io.LimitReader(resp.Body, maxPinBytes+1)`. An int64 is
-- kept in two's complement, as a number below 2^64.
use pevo_pinner.Prelude.{
  ℕ, ◌+◌, ◌-◌, ◌%◌, min, Bool, ◌&&◌, ◌||◌, Option, none, some, List, [], ◌∷◌, ◌++◌, length, take,
  drop, ltb, leb, ◌==◌, if◌then◌else◌,
}
use pevo_pinner.Prelude.Text.{Text, is_empty}

-- `x + y` of two int64.
unfoldable pub add_int64 : ℕ → ℕ → ℕ
add_int64 x y = (x + y) % 18446744073709551616

-- `x - y`
unfoldable pub sub_int64 : ℕ → ℕ → ℕ
sub_int64 x y = (x + (18446744073709551616 - y)) % 18446744073709551616

-- `x <= 0`
unfoldable pub is_not_positive : ℕ → Bool
is_not_positive x = (x == 0) || leb 9223372036854775808 x

pub data ReadError : Type 0 where
  eof : ReadError
  broken : ReadError

-- A call of Read: the length of `p`, how many bytes the body has ready, whether it fails, and
-- whether it reports EOF together with its last bytes.
pub record ReadCall : Type 0 where
  pub size : ℕ
  pub ready : ℕ
  pub fails : Bool
  pub with_last : Bool

-- What Read returns: the bytes put in `p`, and the error.
pub record Read : Type 0 where
  pub bytes : Text
  pub error : Option ReadError

-- The body of the response: at most `size` bytes of what is left of it.
abbrev pub body_read : ReadCall → (size : ℕ) → (rest : Text) → Read
body_read call size rest =
    let got = take (min size call.ready) rest in
    let left = drop (min size call.ready) rest in
    record {
      bytes = got;
      error =
          if call.fails
          then some broken
          else (if is_empty left && (call.with_last || is_empty got) then some eof else none);
    }

-- `byteCountReader` with the `io.LimitedReader` in it: what the body has left, `N` and `n`.
pub record ByteCountReader : Type 0 where
  pub rest : Text
  pub remaining : ℕ
  pub n : ℕ

-- `&byteCountReader{r: io.LimitReader(resp.Body, n.maxPinBytes+1)}`
unfoldable pub byte_count_reader : (max_pin_bytes : ℕ) → (body : Text) → ByteCountReader
byte_count_reader max_pin_bytes body = record {
  rest = body;
  remaining = add_int64 max_pin_bytes 1;
  n = 0;
}

-- `LimitedReader.Read`
unfoldable pub limited_read : ReadCall → ByteCountReader → ByteCountReader × Read
limited_read call b =
    if is_not_positive b.remaining
    then (b, record { bytes = []; error = some eof })
    else (let size = if ltb b.remaining call.size then b.remaining else call.size in
        let r = body_read call size b.rest in
        (
          record b {
            rest = drop (min size call.ready) b.rest;
            remaining = sub_int64 b.remaining (length r.bytes);
          },
          r,
        ))

-- `byteCountReader.Read`
unfoldable pub read : ReadCall → ByteCountReader → ByteCountReader × Read
read call b =
    let (next, r) = limited_read call b in
    (record next { n = add_int64 next.n (length r.bytes) }, r)

-- The calls one after another, the bytes they gave, and the error of the last one.
pub record Drained : Type 0 where
  pub reader : ByteCountReader
  pub bytes : Text
  pub error : Option ReadError

-- The parser reads until it is given an error.
unfoldable pub drain : List ReadCall → ByteCountReader → Drained
drain [] b = record { reader = b; bytes = []; error = none }
drain (call ∷ calls) b =
    let (next, r) = read call b in
    elim r.error [
      | some e ↦ record { reader = next; bytes = r.bytes; error = some e }
      | none ↦
          let later = drain calls next in
          record { reader = later.reader; bytes = r.bytes ++ later.bytes; error = later.error }
    ]
