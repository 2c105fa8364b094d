-- ===== src/Fetch/Counting.antt =====
-- byteCountReader: what its counter says of the bytes that were read.
use pevo_pinner.Prelude.{
  ℕ, zero, suc, ◌+◌, ◌-◌, ◌≤◌, ◌<◌, ◌≡◌, ◌↔◌, ◌⊎◌, refl, sym, ap, ◌∙◌, inl, inr, min, true, none,
  some, List, [], ◌∷◌, ◌++◌, append-nil, append_assoc, length, length-append, take, drop, ltb,
  if◌then◌else◌, Bool-cases, Option-cases, arith, take-append-drop, take-length-append,
}
use pevo_pinner.Prelude.Int.{max_int64}
use pevo_pinner.Prelude.Text.{Text, is_empty}
use pevo_pinner.Fetch.Reader.{
  add_int64, sub_int64, is_not_positive, eof, broken, ReadCall, Read, body_read, ByteCountReader,
  byte_count_reader, limited_read, read, drain,
}

length-take : (n : ℕ) (s : Text) → length (take n s) ≤ n
length-take zero s = omega arith
length-take (suc n) [] = omega arith
length-take (suc n) (c ∷ s) = omega (arith, length-take n s)

take-all : (n : ℕ) (s rest : Text) → length s ≡ n → take n (s ++ rest) ≡ s
take-all n s rest e = rw (sym e) (take-length-append s rest)

is_empty-nil : (s : Text) → is_empty s ≡ true → s ≡ []
is_empty-nil [] h = refl
is_empty-nil (c ∷ s) h = cc

take-short : (n : ℕ) (s : Text) → length s ≤ n → take n s ≡ s
take-short zero [] h = refl
take-short (suc n) [] h = refl
take-short zero (c ∷ s) h = absurd (omega (arith, h))
take-short (suc n) (c ∷ s) h = ap (λ t. c ∷ t) (take-short n s (omega (arith, h)))

is_not_positive-zero : (x : ℕ) → x ≤ max_int64 → is_not_positive x ≡ true → x ≡ 0
unfolding is_not_positive
is_not_positive-zero x h e = ground arith

body_read-eof :
    (call : ReadCall) (size : ℕ) (rest : Text)
    → (body_read call size rest).error ≡ some eof
    → drop (min size call.ready) rest ≡ []
body_read-eof call size rest e = elim (Bool-cases call.fails) [
  | inl f ↦ let other : some broken ≡ some eof = rw f at e in cc
  | inr f ↦ elim (Bool-cases (is_empty (drop (min size call.ready) rest))) [
    | inl g ↦ is_empty-nil _ g
    | inr g ↦ let other : none ≡ some eof = simp (f, g) at e in cc
  ]
]

add_int64_lem : (x y : ℕ) → x + y ≤ max_int64 → add_int64 x y ≡ x + y
unfolding add_int64
add_int64_lem x y h = omega (arith, h)

sub_int64_lem : (x y : ℕ) → x ≤ max_int64 → y ≤ x → sub_int64 x y ≡ x - y
unfolding sub_int64
sub_int64_lem x y h i = omega (arith, h, i)

-- What a Read of the LimitedReader does to the body, to `n` and to `N`.
Moves : ByteCountReader → ByteCountReader × Read → Type 0
Moves b (next, r) =
    (b.rest ≡ r.bytes ++ next.rest)
    × (next.n ≡ b.n)
    × (next.remaining + length r.bytes ≡ b.remaining)

limited_read-Moves :
    (call : ReadCall) (b : ByteCountReader)
    → b.remaining ≤ max_int64
    → Moves b (limited_read call b)
unfolding Moves limited_read is_not_positive
limited_read-Moves call b h = elim (Bool-cases (is_not_positive b.remaining)) [
  | inl e ↦ simp e (refl, refl, omega arith)
  | inr e ↦
      let size = if ltb b.remaining call.size then b.remaining else call.size in
      let short : length (take (min size call.ready) b.rest) ≤ b.remaining =
        ground (arith, length-take (min size call.ready) b.rest) in
      simp e (
        sym (take-append-drop (min size call.ready) b.rest),
        refl,
        omega (
          arith,
          short,
          h,
          sub_int64_lem b.remaining (length (take (min size call.ready) b.rest)) h short,
        ),
      )
]

module _ (max : ℕ) (body : Text) where
  -- What has been read, what is left, and what may still be read.
  IsCounting : (got : Text) → ByteCountReader → Type 0
  IsCounting got b = (body ≡ got ++ b.rest) × (b.n ≡ length got) × (b.n + b.remaining ≡ suc max)

  byte_count_reader-IsCounting : max < max_int64 → IsCounting [] (byte_count_reader max body)
  unfolding byte_count_reader IsCounting
  byte_count_reader-IsCounting h =
      (refl, refl, rw (add_int64_lem max 1 (omega (arith, h))) (omega arith))

  read-IsCounting :
      (got : Text) (call : ReadCall) (b : ByteCountReader)
      → max < max_int64
      → IsCounting got b
      → IsCounting (got ++ (read call b).1.bytes) (read call b).0
  unfolding IsCounting read Moves
  read-IsCounting got call b h (whole, count, room) =
      let (next, r) = limited_read call b in
      let (moved, kept, left) = limited_read-Moves call b (omega (arith, h, room)) in
      let total : add_int64 next.n (length r.bytes) ≡ next.n + length r.bytes =
        add_int64_lem next.n (length r.bytes) (omega (arith, h, room, kept, left)) in
      (
        whole ∙ ap (λ t. got ++ t) moved ∙ sym (append_assoc got r.bytes next.rest),
        total ∙ omega (arith, kept, count, length-append {0} got r.bytes),
        omega (arith, total, kept, left, room),
      )

  drain-IsCounting :
      (calls : List ReadCall) (got : Text) (b : ByteCountReader)
      → max < max_int64
      → IsCounting got b
      → IsCounting (got ++ (drain calls b).bytes) (drain calls b).reader
  unfolding drain
  drain-IsCounting [] got b h i = rw (append-nil got) i
  drain-IsCounting (call ∷ calls) got b h i =
      let (next, r) = read call b in
      let now : IsCounting (got ++ r.bytes) next = read-IsCounting got call b h i in
      elim (Option-cases r.error) [
        | inr (e, f) ↦ rw (f, drain) now
        | inl f ↦
            rw (f, drain)
              (rw (sym (append_assoc got r.bytes (drain calls next).bytes))
                (drain-IsCounting calls (got ++ r.bytes) next h now))
      ]

  -- A Read that reports EOF leaves nothing of the body, or has reached one byte above the cap.
  read-eof :
      (got : Text) (call : ReadCall) (b : ByteCountReader)
      → max < max_int64
      → IsCounting got b
      → (read call b).1.error ≡ some eof
      → ((read call b).0.rest ≡ []) ⊎ ((read call b).0.n ≡ suc max)
  unfolding IsCounting read limited_read
  read-eof got call b h (whole, count, room) e = elim (Bool-cases (is_not_positive b.remaining)) [
    | inl f ↦
        let none_left : b.remaining ≡ 0 =
          is_not_positive-zero b.remaining (omega (arith, h, room)) f in
        inr (simp f (add_int64_lem b.n 0 (omega (arith, h, room)) ∙ omega (arith, room, none_left)))
    | inr f ↦
        let size = if ltb b.remaining call.size then b.remaining else call.size in
        let plain : (body_read call size b.rest).error ≡ some eof = rw f at e in
        inl (simp f (body_read-eof call size b.rest plain))
  ]

  drain-eof :
      (calls : List ReadCall) (got : Text) (b : ByteCountReader)
      → max < max_int64
      → IsCounting got b
      → (drain calls b).error ≡ some eof
      → ((drain calls b).reader.rest ≡ []) ⊎ ((drain calls b).reader.n ≡ suc max)
  unfolding drain
  drain-eof [] got b h i e = cc
  drain-eof (call ∷ calls) got b h i e =
      let (next, r) = read call b in
      let now : IsCounting (got ++ r.bytes) next = read-IsCounting got call b h i in
      elim (Option-cases r.error) [
        | inr (x, f) ↦ rw (f, drain) (read-eof got call b h i (rw f (rw (f, drain) at e)))
        | inl f ↦ rw (f, drain) (drain-eof calls (got ++ r.bytes) next h now (rw (f, drain) at e))
      ]

  -- Whatever the parser asks for and however the body is delivered, under a cap below the largest
  -- int64 the bytes read are a first part of the body, the counter is their number, and it never
  -- goes more than one above the cap.
  pub drain_bound :
      (calls : List ReadCall)
      → max < max_int64
      → (body
          ≡ (drain calls (byte_count_reader max body)).bytes
            ++ (drain calls (byte_count_reader max body)).reader.rest)
        × ((drain calls (byte_count_reader max body)).reader.n
            ≡ length (drain calls (byte_count_reader max body)).bytes)
        × ((drain calls (byte_count_reader max body)).reader.n ≤ suc max)
  unfolding IsCounting
  drain_bound calls h =
      let (whole, count, room) = drain-IsCounting calls [] _ h (byte_count_reader-IsCounting h) in
      (whole, count, omega (arith, room))

  -- Under a cap below the largest int64, if the parser's last Read reported EOF, the bytes read are
  -- the body up to one byte above the cap, and the counter is past the cap exactly when the body is
  -- longer than the cap.
  pub drain_lem :
      (calls : List ReadCall)
      → max < max_int64
      → (drain calls (byte_count_reader max body)).error ≡ some eof
      → ((drain calls (byte_count_reader max body)).bytes ≡ take (suc max) body)
        × ((ltb max (drain calls (byte_count_reader max body)).reader.n ≡ true)
            ↔ (max < length body))
  drain_lem calls h e =
      let d = drain calls (byte_count_reader max body) in
      let (whole, count, bound) = drain_bound calls h in
      elim (drain-eof calls [] _ h (byte_count_reader-IsCounting h) e) [
        | inl gone ↦
            let all : body ≡ d.bytes = whole ∙ ap (λ t. d.bytes ++ t) gone ∙ append-nil d.bytes in
            (
              sym (
                  ap (take (suc max)) all
                  ∙ take-short (suc max) d.bytes (omega (arith, count, bound))),
              (ground (arith, count, ap length all), ground (arith, count, ap length all)),
            )
        | inr full ↦
            let sizes : length body ≡ length d.bytes + length d.reader.rest =
              ap length whole ∙ length-append {0} d.bytes d.reader.rest in
            (
              sym (
                  ap (take (suc max)) whole
                  ∙ take-all (suc max) d.bytes d.reader.rest (omega (arith, count, full))),
              (ground (arith, count, full, sizes), ground (arith, count, full, sizes)),
            )
      ]

-- With the largest int64 as the cap, the reader reports EOF at once.
largest_cap :
    (body : Text) (call : ReadCall) (calls : List ReadCall)
    → drain (call ∷ calls) (byte_count_reader max_int64 body)
      ≡ record { reader = byte_count_reader max_int64 body; bytes = []; error = some eof }
unfolding drain read limited_read byte_count_reader is_not_positive add_int64
largest_cap body call calls = refl
