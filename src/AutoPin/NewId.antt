-- ===== src/AutoPin/NewId.antt =====
-- autopin.go: newID, and reading the random bytes back from it.
use pevo_pinner.Prelude.{
  ℕ, ◌+◌, ◌-◌, ◌*◌, ◌/◌, ◌%◌, ◌<◌, ◌≡◌, refl, ap, ◌∙◌, sym, false, List, [], ◌∷◌, ◌++◌, append-nil,
  take, drop, take-append-drop, drop-drop, All, All-take, All-drop, ltb, leb, ◌==◌, if◌then◌else◌,
  arith,
}
use pevo_pinner.Prelude.Text.{Text}

-- A digit of `%x`.
unfoldable pub hex_digit : ℕ → ℕ
hex_digit d = if ltb d 10 then b'0' + d else b'a' + (d - 10)

-- `%x` of a slice of bytes.
unfoldable pub hex : List ℕ → Text
unfolding hex_digit
hex [] = []
hex (b ∷ bs) = hex_digit (b / 16) ∷ hex_digit (b % 16) ∷ hex bs

-- The slices have fixed bounds, for sixteen random bytes.
unfoldable pub new_id : (random : List ℕ) → Text
unfolding hex
new_id b =
    hex (take 4 b)
    ++ b'-'
      ∷ (hex (take 2 (drop 4 b))
          ++ b'-'
            ∷ (hex (take 2 (drop 6 b))
                ++ b'-' ∷ (hex (take 2 (drop 8 b)) ++ b'-' ∷ hex (drop 10 b))))

abbrev pub digit_value : ℕ → ℕ
digit_value c = if leb b'a' c then c - b'a' + 10 else c - b'0'

-- The bytes that an ID spells, without its dashes.
unfoldable pub bytes_of : Text → List ℕ
bytes_of [] = []
bytes_of (c ∷ []) = []
bytes_of (c ∷ d ∷ s) =
    let behind_dash = bytes_of (d ∷ s) in
    let behind_byte = bytes_of s in
    if c == b'-' then behind_dash else (16 * digit_value c + digit_value d) ∷ behind_byte

abbrev pub IsByte : ℕ → Type 0
IsByte b = b < 256

digit_value-hex_digit : (d : ℕ) → d < 16 → digit_value (hex_digit d) ≡ d
unfolding hex_digit
digit_value-hex_digit d h = ground (arith, h)

no_dash : (d : ℕ) → (hex_digit d == b'-') ≡ false
unfolding hex_digit
no_dash d = ground arith

bytes_of-dash : (s : Text) → bytes_of (b'-' ∷ s) ≡ bytes_of s
unfolding bytes_of
bytes_of-dash [] = refl
bytes_of-dash (c ∷ s) = refl

bytes_of-hex :
    (bs : List ℕ) (rest : Text) → All IsByte bs → bytes_of (hex bs ++ rest) ≡ bs ++ bytes_of rest
unfolding bytes_of hex
bytes_of-hex [] rest h = refl
bytes_of-hex (b ∷ bs) rest (p, h) =
    let high = digit_value-hex_digit (b / 16) (omega (arith, p)) in
    let low = digit_value-hex_digit (b % 16) (omega arith) in
    let whole : 16 * (b / 16) + b % 16 ≡ b = omega arith in
    rw (no_dash (b / 16), bytes_of)
      (rw (high, low) (rw whole (ap (◌∷◌ b) (bytes_of-hex bs rest h))))

-- One field of the ID and what is behind it, where the rest is read right.
field :
    (n m k : ℕ) (b : List ℕ) (s : Text)
    → All IsByte b
    → m + n ≡ k
    → bytes_of s ≡ drop k b
    → bytes_of (hex (take n (drop m b)) ++ b'-' ∷ s) ≡ drop m b
field n m k b s h at_k rest =
    bytes_of-hex (take n (drop m b)) (b'-' ∷ s)
      (All-take IsByte n (drop m b) (All-drop IsByte m b h))
    ∙ ap (◌++◌ (take n (drop m b)))
        (bytes_of-dash s ∙ rest ∙ sym (drop-drop m n b ∙ ap (λ j. drop j b) at_k))
    ∙ take-append-drop n (drop m b)

-- The random bytes can be read back from the ID, so distinct bytes give distinct IDs.
pub bytes_of-new_id : (random : List ℕ) → All IsByte random → bytes_of (new_id random) ≡ random
unfolding new_id
bytes_of-new_id b h =
    let last : bytes_of (hex (drop 10 b)) ≡ drop 10 b =
      ap bytes_of (sym (append-nil (hex (drop 10 b))))
      ∙ bytes_of-hex (drop 10 b) [] (All-drop IsByte 10 b h)
      ∙ unfold bytes_of in append-nil (drop 10 b) in
    field 4 0 4 b _ h (omega arith) (
      field 2 4 6 b _ h (omega arith)
        (field 2 6 8 b _ h (omega arith) (field 2 8 10 b _ h (omega arith) last)))
