-- ===== src/Server/Format.antt =====
-- server.go: formatDuration. A duration is its number of nanoseconds; the hours, minutes and seconds
-- that the code takes by way of floating point are whole after the rounding.
use pevo_pinner.Prelude.{
  ℕ, zero, suc, ◌+◌, ◌-◌, ◌*◌, ◌/◌, ◌%◌, ◌≤◌, ◌<◌, ◌≡◌, refl, ap, ◌∙◌, ◌⊎◌, inl, inr, [], ◌∷◌, ◌++◌,
  ltb, ◌==◌, if◌then◌else◌, arith, Bool-cases,
}
use pevo_pinner.Prelude.Int.{ℤ, pos, negsuc, max_int64}
use pevo_pinner.Prelude.Text.{Text, codes}

-- `%d`: the digits of a number, one round for each.
unfoldable pub digits : (fuel n : ℕ) → Text → Text
digits zero n out = out
digits (suc fuel) n out =
    let rest = digits fuel (n / 10) ((b'0' + n % 10) ∷ out) in
    if ltb n 10 then (b'0' + n) ∷ out else rest

unfoldable pub decimal : ℕ → Text
unfolding digits
decimal n = digits (suc n) n []

-- The number that digits spell behind `n`.
abbrev pub value : ℕ → Text → ℕ
value n [] = n
value n (c ∷ s) = value (n * 10 + (c - b'0')) s

value-digits : (fuel n : ℕ) (out : Text) → n < fuel → value 0 (digits fuel n out) ≡ value n out
unfolding digits
value-digits zero n out h = absurd (omega (arith, h))
value-digits (suc fuel) n out h = elim (Bool-cases (ltb n 10)) [
  | inl small ↦
      let e : 0 * 10 + (b'0' + n - b'0') ≡ n = omega arith in
      rw (small, digits) (ap (λ m. value m out) e)
  | inr large ↦
      let e : n / 10 * 10 + (b'0' + n % 10 - b'0') ≡ n = omega arith in
      rw (large, digits)
        (value-digits fuel (n / 10) ((b'0' + n % 10) ∷ out) (ground (arith, large, h))
          ∙ ap (λ m. value m out) e)
]

-- The digits spell the number.
pub value-decimal : (n : ℕ) → value 0 (decimal n) ≡ n
unfolding decimal
value-decimal n = value-digits (suc n) n [] (omega arith)

abbrev pub second : ℕ
second = 1000000000

-- `d.Round(time.Second)` for a duration that is not negative.
unfoldable pub round_second : ℕ → ℕ
round_second d =
    let r = d % second in
    if ltb (r + r) second
    then d - r
    else (if ltb max_int64 (d + second - r) then max_int64 else d + second - r)

-- The three cases, for whole hours, minutes and seconds.
unfoldable pub show_units : (h m s : ℕ) → Text
show_units h m s =
    if ltb 0 h
    then decimal h ++ (codes "h" ++ (decimal m ++ codes "m"))
    else (if ltb 0 m
        then decimal m ++ (codes "m" ++ (decimal s ++ codes "s"))
        else decimal s ++ codes "s")

-- A negative duration has no positive part, so only its seconds are shown.
unfoldable pub show_negative : ℕ → Text
show_negative s = if s == 0 then codes "0s" else codes "-" ++ (decimal s ++ codes "s")

unfoldable pub format_duration : ℤ → Text
unfolding round_second show_units show_negative
format_duration (pos n) =
    let d = round_second n in
    show_units (d / 3600000000000) (d / 60000000000 % 60) (d / second % 60)
format_duration (negsuc n) = show_negative (round_second (suc n) / second % 60)

-- The rounded number of seconds, and what is shown of it.
abbrev pub IsShown : (secs : ℕ) → Text → Type 0
IsShown secs text =
    ((3600 ≤ secs)
      × (text ≡ decimal (secs / 3600) ++ (codes "h" ++ (decimal (secs % 3600 / 60) ++ codes "m"))))
    ⊎ ((60 ≤ secs)
        × (secs < 3600)
        × (text ≡ decimal (secs / 60) ++ (codes "m" ++ (decimal (secs % 60) ++ codes "s"))))
    ⊎ ((secs < 60) × (text ≡ decimal secs ++ codes "s"))

round_second_lem :
    (d : ℕ)
    → d + second ≤ max_int64
    → (secs : ℕ) × (round_second d ≡ secs * second)
      × (secs * second ≤ d + 500000000)
      × (d < secs * second + 500000000 + 1)
unfolding round_second
round_second_lem d h = ((d + 500000000) / second, ground arith, omega arith, omega arith)

show_units-IsShown :
    (secs : ℕ) → IsShown secs (show_units (secs / 3600) (secs % 3600 / 60) (secs % 60))
unfolding show_units
show_units-IsShown secs = elim (Bool-cases (ltb 0 (secs / 3600))) [
  | inl hours ↦ inl (ground (arith, hours), rw hours refl)
  | inr none_left ↦ elim (Bool-cases (ltb 0 (secs % 3600 / 60))) [
    | inl minutes ↦
        let e : secs % 3600 / 60 ≡ secs / 60 = ground (arith, none_left) in
        inr (
          inl (
            ground (arith, minutes),
            ground (arith, none_left),
            rw none_left (
                rw minutes
                  (ap (λ n. decimal n ++ (codes "m" ++ (decimal (secs % 60) ++ codes "s"))) e)),
          ))
    | inr no_minutes ↦
        let e : secs % 60 ≡ secs = ground (arith, none_left, no_minutes) in
        inr (
          inr (
            ground (arith, none_left, no_minutes),
            rw none_left (rw no_minutes (ap (λ n. decimal n ++ codes "s") e)),
          ))
  ]
]

units_of :
    (secs : ℕ)
    → (secs * second / 3600000000000 ≡ secs / 3600)
      × (secs * second / 60000000000 % 60 ≡ secs % 3600 / 60)
      × (secs * second / second % 60 ≡ secs % 60)
units_of secs = (omega arith, omega arith, omega arith)

-- A duration that is not negative and at least a second below the largest int64 is shown as a
-- number of whole seconds at most half a second away: as hours and minutes from an hour on, as
-- minutes and seconds from a minute on, and else as seconds.
pub format_duration_lem :
    (d : ℕ)
    → d + second ≤ max_int64
    → (secs : ℕ) × (secs * second ≤ d + 500000000)
      × (d ≤ secs * second + 500000000)
      × IsShown secs (format_duration (pos d))
unfolding format_duration
format_duration_lem d h =
    let (secs, e, low, high) = round_second_lem d h in
    let (eh, em, es) = units_of secs in
    (secs, low, omega (arith, high), rw e (rw (eh, em, es) (show_units-IsShown secs)))
