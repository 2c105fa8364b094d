-- ===== src/Runner/Pool/Accounting.antt =====
-- autopin_runner.go: the counters of a call of `Run`, over every interleaving.
use pevo_pinner.Prelude.{
  ℕ, ◌+◌, ◌≡◌, refl, ap, ◌⊎◌, inl, inr, Bool, true, false, List, [], ◌∷◌, ◌++◌, length, All,
  All-append, All-middle, Bool-cases, arith,
}
use pevo_pinner.Discovery.{DiscoveredItem}
use pevo_pinner.Runner.{AutoPinRunner, shed}
use pevo_pinner.Runner.Shedding.{shed_total}
use pevo_pinner.Runner.Pool.{
  Tally, Stage, leaving, Worker, Probe, probe_error, answered, after_probe, after_pin, Batch,
  start_batch, Move, schedule, break_schedule, cancel, probed, pin_returned, leave, Pool, Step,
  enter, inside, Reach, here, next, HasReturned, final_result,
}
use pevo_pinner.Runner.Pool.Slots.{Reach-runner}

-- A goroutine that is not counted yet.
abbrev busy_stage : Stage → ℕ
busy_stage leaving = 0
busy_stage _ = 1

abbrev busy : List Worker → ℕ
busy [] = 0
busy (w ∷ ws) = busy_stage w.stage + busy ws

busy-middle :
    (xs ys : List Worker) (w : Worker)
    → busy (xs ++ w ∷ ys) ≡ busy_stage w.stage + busy xs + busy ys
busy-middle [] ys w = omega arith
busy-middle (x ∷ xs) ys w = omega (arith, busy-middle xs ys w)

busy-append : (xs ys : List Worker) → busy (xs ++ ys) ≡ busy xs + busy ys
busy-append [] ys = omega arith
busy-append (x ∷ xs) ys = omega (arith, busy-append xs ys)

abbrev counted : Tally → ℕ
counted t = t.pinned + t.failed + t.is_pinned_errors + t.already

-- Every queued item waits, is under way, or is counted once.
record IsAccounted (r : AutoPinRunner) (b : Batch) : Type 0 where
  sum : length b.waiting + busy b.flying + counted b.tally ≡ length (shed r b.items).queued
  all_started : b.cancelled ≡ false → b.stopped ≡ false

after_probe-counted :
    (a : Probe) (w : Worker) (t : Tally)
    → busy_stage (after_probe a w t).0.stage + counted (after_probe a w t).1 ≡ 1 + counted t
after_probe-counted probe_error w t = omega arith
after_probe-counted (answered true) w t = omega arith
after_probe-counted (answered false) w t = omega arith

after_pin-counted :
    (done : Bool) (w : Worker) (t : Tally)
    → busy_stage (after_pin done w t).0.stage + counted (after_pin done w t).1 ≡ 1 + counted t
after_pin-counted true w t = omega arith
after_pin-counted false w t = omega arith

Move-IsAccounted :
    {r : AutoPinRunner} {c s s' : ℕ} {b b' : Batch}
    → Move c s b s' b'
    → IsAccounted r b
    → IsAccounted r b'
Move-IsAccounted (schedule item rest h w lt) v = record {
  sum = omega (arith, v.sum, ap length w);
  all_started = v.all_started;
}
Move-IsAccounted (break_schedule item rest h w d) v = record {
  sum = v.sum;
  all_started = λ e. cc (d, e);
}
Move-IsAccounted (probed {b} front behind w a e h) v = record {
  sum = omega (
    arith,
    v.sum,
    ap busy e,
    busy-middle front behind w,
    ap busy_stage h,
    busy-middle front behind (after_probe a w b.tally).0,
    after_probe-counted a w b.tally,
  );
  all_started = v.all_started;
}
Move-IsAccounted (pin_returned {b} front behind w done e h) v = record {
  sum = omega (
    arith,
    v.sum,
    ap busy e,
    busy-middle front behind w,
    ap busy_stage h,
    busy-middle front behind (after_pin done w b.tally).0,
    after_pin-counted done w b.tally,
  );
  all_started = v.all_started;
}
Move-IsAccounted (leave {b} front behind w e h) v = record {
  sum = omega (
    arith,
    v.sum,
    ap busy e,
    busy-middle front behind w,
    ap busy_stage h,
    busy-append front behind,
  );
  all_started = v.all_started;
}

start_batch-IsAccounted :
    (r : AutoPinRunner) (items : List DiscoveredItem) → IsAccounted r (start_batch r items)
start_batch-IsAccounted r items = record { sum = omega arith; all_started = λ e. refl }

Step-IsAccounted :
    {p q : Pool}
    → Step p q
    → All (IsAccounted p.runner) p.batches
    → All (IsAccounted q.runner) q.batches
Step-IsAccounted {p} (enter items e) v =
    rw e (All-append _ p.batches _ v (start_batch-IsAccounted p.runner items, tt))
Step-IsAccounted {p} (inside front behind b b' s e m e') v =
    let (before, this, after) = All-middle (IsAccounted p.runner) front behind (rw e at v) in
    rw e' (All-append _ front _ before (Move-IsAccounted m this, after))
Step-IsAccounted {p} (cancel front behind b e h e') v =
    let (before, this, after) = All-middle (IsAccounted p.runner) front behind (rw e at v) in
    rw e' (
      All-append _ front _ before
        (record { sum = this.sum; all_started = λ gone. absurd (cc gone) }, after))

Reach-IsAccounted :
    {r : AutoPinRunner} {p : Pool} → Reach r p → All (IsAccounted p.runner) p.batches
Reach-IsAccounted here = tt
Reach-IsAccounted (next h s) = Step-IsAccounted s (Reach-IsAccounted h)

HasReturned-flying : (b : Batch) → HasReturned b → b.flying ≡ []
HasReturned-flying b (inl (e, _)) = e
HasReturned-flying b (inr (e, _)) = e

unscheduled :
    (b : Batch)
    → (b.cancelled ≡ false → b.stopped ≡ false)
    → HasReturned b
    → (b.cancelled ≡ true) ⊎ (b.waiting ≡ [])
unscheduled b f (inl (_, w)) = inr w
unscheduled b f (inr (_, st)) = elim (Bool-cases b.cancelled) [
  | inl e ↦ inl e
  | inr e ↦ let g = f e in absurd (cc (st, g))
]

-- For any call of Run that has returned in a reachable pool, the counters of its result, the items
-- whose CID was pinned already and the items left in the scheduling loop add up to the matched
-- count, and an item is left only if the context of the call was cancelled.
pub final_result_total :
    (r : AutoPinRunner) (p : Pool) (front behind : List Batch) (b : Batch)
    → Reach r p
    → p.batches ≡ front ++ b ∷ behind
    → HasReturned b
    → let res = final_result r b in
      (res.matched
        ≡ res.pinned
          + res.failed
          + res.is_pinned_errors
          + res.shed
          + b.tally.already
          + length b.waiting)
      × ((b.cancelled ≡ true) ⊎ (b.waiting ≡ []))
unfolding final_result
final_result_total r p front behind b h e done =
    let v : IsAccounted r b =
      (All-middle (IsAccounted r) front behind
        (rw (Reach-runner h, e) at (Reach-IsAccounted h))).1 in
    (
      omega (arith, v.sum, ap busy (HasReturned-flying b done), shed_total r b.items),
      unscheduled b v.all_started done,
    )
