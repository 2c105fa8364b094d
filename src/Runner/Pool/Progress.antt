-- ===== src/Runner/Pool/Progress.antt =====
-- autopin_runner.go: no call of `Run` is stuck.
pub mod Finish
use pevo_pinner.Prelude.{
  ℕ, zero, suc, ◌+◌, ◌*◌, ◌≤◌, ◌<◌, ◌≡◌, refl, ap, inl, inr, Bool, true, false, List, [], ◌∷◌, ◌++◌,
  length, Bool-cases, arith, ltb,
}
use pevo_pinner.Discovery.{DiscoveredItem}
use pevo_pinner.Prelude.Int.{ℤ, pos, negsuc}
use pevo_pinner.Runner.{new_auto_pin_runner}
use pevo_pinner.Runner.Pool.{
  Tally, Stage, probing, pinning, leaving, Worker, Probe, probe_error, answered, after_probe,
  after_pin, Batch, Move, schedule, break_schedule, probed, pin_returned, leave, Pool, Reach,
  HasReturned,
}
use pevo_pinner.Runner.Pool.Slots.{in_flight, in_flight-append, Reach-IsBounded, Reach-runner}

-- The steps that a goroutine has left.
abbrev stage_steps : Stage → ℕ
stage_steps probing = 3
stage_steps pinning = 2
stage_steps leaving = 1

abbrev worker_steps : List Worker → ℕ
worker_steps [] = 0
worker_steps (w ∷ ws) = stage_steps w.stage + worker_steps ws

abbrev flag : Bool → ℕ
flag true = 0
flag false = 1

-- A bound on the steps that a batch can still make.
abbrev pub steps_left : Batch → ℕ
steps_left b = 4 * length b.waiting + worker_steps b.flying + flag b.stopped

worker_steps-middle :
    (xs ys : List Worker) (w : Worker)
    → worker_steps (xs ++ w ∷ ys) ≡ stage_steps w.stage + worker_steps xs + worker_steps ys
worker_steps-middle [] ys w = omega arith
worker_steps-middle (x ∷ xs) ys w = omega (arith, worker_steps-middle xs ys w)

worker_steps-append :
    (xs ys : List Worker) → worker_steps (xs ++ ys) ≡ worker_steps xs + worker_steps ys
worker_steps-append [] ys = omega arith
worker_steps-append (x ∷ xs) ys = omega (arith, worker_steps-append xs ys)

after_probe-steps :
    (a : Probe) (w : Worker) (t : Tally) → stage_steps (after_probe a w t).0.stage ≤ 2
after_probe-steps probe_error w t = omega arith
after_probe-steps (answered true) w t = omega arith
after_probe-steps (answered false) w t = omega arith

after_pin-steps :
    (done : Bool) (w : Worker) (t : Tally) → stage_steps (after_pin done w t).0.stage ≤ 1
after_pin-steps true w t = omega arith
after_pin-steps false w t = omega arith

-- Every step of a batch lowers its number of remaining steps (four for each waiting item, the steps
-- that each goroutine has left, and one if its loop has not ended by `break schedule`).
pub Move-lt : {c s s' : ℕ} {b b' : Batch} → Move c s b s' b' → steps_left b' < steps_left b
Move-lt (schedule item rest h w lt) = omega (arith, ap length w)
Move-lt (break_schedule item rest h w d) = omega (arith, ap flag h)
Move-lt (probed {b} front behind w a e h) = omega (
  arith,
  ap worker_steps e,
  worker_steps-middle front behind w,
  ap stage_steps h,
  worker_steps-middle front behind (after_probe a w b.tally).0,
  after_probe-steps a w b.tally,
)
Move-lt (pin_returned {b} front behind w done e h) = omega (
  arith,
  ap worker_steps e,
  worker_steps-middle front behind w,
  ap stage_steps h,
  worker_steps-middle front behind (after_pin done w b.tally).0,
  after_pin-steps done w b.tally,
)
Move-lt (leave {b} front behind w e h) = omega (
  arith,
  ap worker_steps e,
  worker_steps-middle front behind w,
  ap stage_steps h,
  worker_steps-append front behind,
)

-- A step of the code of a batch that is not its `break schedule`.
abbrev pub Forward : (c s : ℕ) (b : Batch) (s' : ℕ) (b' : Batch) → Type 0
Forward c s b s' b' = Move c s b s' b' × (b'.stopped ≡ b.stopped)

-- Some batch of the pool has such a step to make.
abbrev pub CanMove : Pool → Type 0
CanMove p =
    (front : List Batch) × (behind : List Batch) × (b : Batch) × (b' : Batch) × (s : ℕ) × (p.batches
      ≡ front ++ b ∷ behind)
    × Forward p.runner.concurrency p.slots b s b'

stage_moves :
    (c n : ℕ) (b : Batch) (w : Worker) (ws : List Worker) (st : Stage)
    → b.flying ≡ w ∷ ws
    → w.stage ≡ st
    → (b' : Batch) × (s : ℕ) × Forward c (suc n) b s b'
stage_moves c n b w ws probing e h = (_, suc n, (probed [] ws w probe_error e h, refl))
stage_moves c n b w ws pinning e h = (_, suc n, (pin_returned [] ws w true e h, refl))
stage_moves c n b w ws leaving e h = (_, n, (leave [] ws w e h, refl))

flying_moves :
    (c s : ℕ) (b : Batch) (ws : List Worker)
    → b.flying ≡ ws
    → 0 < length ws
    → 0 < s
    → (b' : Batch) × (s' : ℕ) × Forward c s b s' b'
flying_moves c s b [] e h k = absurd (omega arith)
flying_moves c zero b (w ∷ ws) e h k = absurd (omega arith)
flying_moves c (suc n) b (w ∷ ws) e h k = stage_moves c n b w ws w.stage e refl

-- Where goroutines are in flight, one of them can go on.
some_flying :
    (bs : List Batch)
    → 0 < in_flight bs
    → (front : List Batch) × (behind : List Batch) × (b : Batch) × (bs ≡ front ++ b ∷ behind)
      × (0 < length b.flying)
some_flying [] h = absurd (omega arith)
some_flying (b ∷ bs) h = elim (Bool-cases (ltb 0 (length b.flying))) [
  | inl yes_some ↦ ([], bs, b, refl, ground (arith, yes_some))
  | inr none_here ↦
      let (front, behind, b', e, k) = some_flying bs (ground (arith, none_here, h)) in
      (b ∷ front, behind, b', ap (◌∷◌ b) e, k)
]

-- With no goroutine in flight and a free slot the loop can go on, or has returned.
idle_moves :
    (c n : ℕ) (b : Batch) (fl : List Worker) (wt : List DiscoveredItem) (st : Bool)
    → b.flying ≡ fl
    → length fl ≡ 0
    → b.waiting ≡ wt
    → b.stopped ≡ st
    → ¬ HasReturned b
    → n < c
    → (b' : Batch) × (s' : ℕ) × Forward c n b s' b'
idle_moves c n b (x ∷ fl) wt st e l w s h k = absurd (omega arith)
idle_moves c n b [] [] st e l w s h k = absurd (h (inl (e, w)))
idle_moves c n b [] (i ∷ wt) true e l w s h k = absurd (h (inr (e, s)))
idle_moves c n b [] (i ∷ wt) false e l w s h k = (_, suc n, (schedule i wt s w k, refl))

new_runner_positive : (c a : ℤ) → 0 < (new_auto_pin_runner c a).concurrency
unfolding new_auto_pin_runner
new_runner_positive (pos zero) a = omega arith
new_runner_positive (pos (suc n)) a = omega arith
new_runner_positive (negsuc n) a = omega arith

-- With a runner made by NewAutoPinRunner from any two numbers, as long as some call of Run in a
-- reachable pool has not returned, some loop can start a goroutine for its next item, or some
-- goroutine can go on, without a cancellation and without a loop that is broken off.
pub Reach-CanMove :
    (c a : ℤ) (p : Pool) (front behind : List Batch) (b : Batch)
    → Reach (new_auto_pin_runner c a) p
    → p.batches ≡ front ++ b ∷ behind
    → ¬ HasReturned b
    → CanMove p
Reach-CanMove c a p front behind b h e busy =
    let v = Reach-IsBounded h in
    elim (Bool-cases (ltb 0 p.slots)) [
      | inl taken ↦
          let (f, g, b₁, e₁, k) = some_flying p.batches (ground (arith, taken, v.counted)) in
          let (b₂, s, m) =
            flying_moves p.runner.concurrency p.slots b₁ b₁.flying refl k (ground (arith, taken)) in
          (f, g, b₁, b₂, s, e₁, m)
      | inr free ↦
          let none_taken : p.slots ≡ 0 = ground (arith, free) in
          let nobody : length b.flying ≡ 0 =
            omega
              (arith, none_taken, v.counted, ap in_flight e, in_flight-append front (b ∷ behind)) in
          let room : p.slots < p.runner.concurrency =
            rw (none_taken, Reach-runner h) (new_runner_positive c a) in
          let (b₂, s, m) =
            idle_moves p.runner.concurrency p.slots b b.flying b.waiting b.stopped refl nobody refl
              refl busy room in
          (front, behind, b, b₂, s, e, m)
    ]
