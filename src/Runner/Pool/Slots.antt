-- ===== src/Runner/Pool/Slots.antt =====
-- autopin_runner.go: the bound on in-flight pins, across all callers of the runner.
use pevo_pinner.Prelude.{
  ℕ, ◌+◌, ◌≤◌, ◌≡◌, refl, ap, ◌∙◌, true, List, [], ◌∷◌, ◌++◌, length, length-append, length-middle,
  arith,
}
use pevo_pinner.Runner.{AutoPinRunner}
use pevo_pinner.Runner.Pool.{
  Batch, after_probe, after_pin, Move, schedule, break_schedule, cancel, probed, pin_returned,
  leave, Pool, Step, enter, inside, Reach, here, next,
}

-- The goroutines of all batches.
abbrev pub in_flight : List Batch → ℕ
in_flight [] = 0
in_flight (b ∷ bs) = length b.flying + in_flight bs

pub in_flight-append : (xs ys : List Batch) → in_flight (xs ++ ys) ≡ in_flight xs + in_flight ys
in_flight-append [] ys = omega arith
in_flight-append (b ∷ xs) ys = omega (arith, in_flight-append xs ys)

-- A step takes or frees as many slots as it starts or ends goroutines.
Move-slots :
    {c s s' : ℕ} {b b' : Batch}
    → Move c s b s' b'
    → s ≤ c
    → (s' ≤ c) × (s' + length b.flying ≡ s + length b'.flying)
Move-slots (schedule item rest h w lt) le = (lt, omega arith)
Move-slots (break_schedule item rest h w d) le = (le, refl)
Move-slots (probed {b} front behind w a e h) le = (
  le,
  omega (
    arith,
    ap length e,
    length-middle front behind w,
    length-middle front behind (after_probe a w b.tally).0,
  ),
)
Move-slots (pin_returned {b} front behind w done e h) le = (
  le,
  omega (
    arith,
    ap length e,
    length-middle front behind w,
    length-middle front behind (after_pin done w b.tally).0,
  ),
)
Move-slots (leave {b} front behind w e h) le = (
  omega arith,
  omega (arith, ap length e, length-middle front behind w, length-append front behind),
)

-- The taken slots are the goroutines in flight, and at most `concurrency`.
pub record IsBounded (p : Pool) : Type 0 where
  pub counted : p.slots ≡ in_flight p.batches
  pub bounded : p.slots ≤ p.runner.concurrency

Step-IsBounded : {p q : Pool} → Step p q → IsBounded p → IsBounded q
Step-IsBounded {p} (enter items e) v = rw e (record {
  counted = omega (arith, v.counted, in_flight-append p.batches _);
  bounded = v.bounded;
})
Step-IsBounded {p} (inside front behind b b' s e m e') v =
    let (le, eq) = Move-slots m v.bounded in
    rw e' (record {
      counted = omega (
        arith,
        eq,
        v.counted,
        ap in_flight e,
        in_flight-append front (b ∷ behind),
        in_flight-append front (b' ∷ behind),
      );
      bounded = le;
    })
Step-IsBounded {p} (cancel front behind b e h e') v = rw e' (record {
  counted = omega (
    arith,
    v.counted,
    ap in_flight e,
    in_flight-append front (b ∷ behind),
    in_flight-append front (record b { cancelled = true } ∷ behind),
  );
  bounded = v.bounded;
})

-- At any moment of any interleaving of any number of callers of the runner, the taken slots are the
-- goroutines in flight, and at most concurrency of them.
pub Reach-IsBounded : {r : AutoPinRunner} {p : Pool} → Reach r p → IsBounded p
Reach-IsBounded here = record { counted = refl; bounded = omega arith }
Reach-IsBounded (next h s) = Step-IsBounded s (Reach-IsBounded h)

pub Reach-runner : {r : AutoPinRunner} {p : Pool} → Reach r p → p.runner ≡ r
Reach-runner here = refl
Reach-runner (next h (enter items e)) = ap (λ q. q.runner) e ∙ Reach-runner h
Reach-runner (next h (inside front behind b b' s e m e')) = ap (λ q. q.runner) e' ∙ Reach-runner h
Reach-runner (next h (cancel front behind b e k e')) = ap (λ q. q.runner) e' ∙ Reach-runner h
