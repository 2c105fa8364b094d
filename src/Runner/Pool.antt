-- ===== src/Runner/Pool.antt =====
-- autopin_runner.go: the bounded pool of `Run` as a transition system. The runner's semaphore is
-- shared by all its callers, so the state is the number of taken slots and one batch for each call
-- of `Run`. Every interleaving of the callers and of their goroutines is a sequence of steps.
pub mod Slots
pub mod Accounting
pub mod Progress
pub mod Handed
use pevo_pinner.Prelude.{ℕ, suc, ◌+◌, ◌<◌, ◌≡◌, ◌⊎◌, Bool, true, false, List, [], ◌∷◌, ◌++◌, length}
use pevo_pinner.Discovery.{DiscoveredItem}
use pevo_pinner.Runner.{AutoPinRunner, AutoPinResult, Shed, shed, first_result}

-- The counters of a batch. `already` counts what the code returns from in silence.
pub record Tally : Type 0 where
  pub pinned : ℕ
  pub failed : ℕ
  pub is_pinned_errors : ℕ
  pub already : ℕ

-- Where a goroutine stands: at `IsPinned`, at `Pin`, or at its deferred calls.
pub data Stage : Type 0 where
  probing pinning leaving : Stage

pub record Worker : Type 0 where
  pub item : DiscoveredItem
  pub stage : Stage

-- The answer of `IsPinned`.
pub data Probe : Type 0 where
  probe_error : Probe
  answered : Bool → Probe

-- The goroutine's body behind each of the two backend calls (true: a nil error).
abbrev pub after_probe : Probe → Worker → Tally → Worker × Tally
after_probe probe_error w t =
    (record w { stage = leaving }, record t { is_pinned_errors = suc t.is_pinned_errors })
after_probe (answered true) w t =
    (record w { stage = leaving }, record t { already = suc t.already })
after_probe (answered false) w t = (record w { stage = pinning }, t)

abbrev pub after_pin : Bool → Worker → Tally → Worker × Tally
after_pin false w t = (record w { stage = leaving }, record t { failed = suc t.failed })
after_pin true w t = (record w { stage = leaving }, record t { pinned = suc t.pinned })

-- One call of `Run`: its argument, what the scheduling loop has left, the goroutines, the counters, whether its
-- context is done and whether the loop has ended by `break schedule`.
pub record Batch : Type 0 where
  pub items : List DiscoveredItem
  pub waiting : List DiscoveredItem
  pub flying : List Worker
  pub tally : Tally
  pub cancelled : Bool
  pub stopped : Bool

abbrev pub start_batch : AutoPinRunner → List DiscoveredItem → Batch
start_batch r items = record {
  items = items;
  waiting = (shed r items).queued;
  flying = [];
  tally = record { pinned = 0; failed = 0; is_pinned_errors = 0; already = 0 };
  cancelled = false;
  stopped = false;
}

-- One step of the code of a batch, with the slots before and after it, at concurrency `c`.
pub data Move (c : ℕ) : ℕ → Batch → ℕ → Batch → Type 0 where
  -- `case r.sem <- struct{}{}:` and the start of the goroutine.
  schedule :
      {s : ℕ} {b : Batch} (item : DiscoveredItem) (rest : List DiscoveredItem)
      → b.stopped ≡ false
      → b.waiting ≡ item ∷ rest
      → s < c
      → Move c s b
          (suc s)
          (record b { waiting = rest; flying = record { item = item; stage = probing } ∷ b.flying })
  -- `case <-ctx.Done(): break schedule`
  break_schedule :
      {s : ℕ} {b : Batch} (item : DiscoveredItem) (rest : List DiscoveredItem)
      → b.stopped ≡ false
      → b.waiting ≡ item ∷ rest
      → b.cancelled ≡ true
      → Move c s b s (record b { stopped = true })
  probed :
      {s : ℕ} {b : Batch} (front behind : List Worker) (w : Worker) (a : Probe)
      → b.flying ≡ front ++ w ∷ behind
      → w.stage ≡ probing
      → Move c s b s (record b {
        flying = front ++ (after_probe a w b.tally).0 ∷ behind;
        tally = (after_probe a w b.tally).1;
      })
  pin_returned :
      {s : ℕ} {b : Batch} (front behind : List Worker) (w : Worker) (done : Bool)
      → b.flying ≡ front ++ w ∷ behind
      → w.stage ≡ pinning
      → Move c s b s (record b {
        flying = front ++ (after_pin done w b.tally).0 ∷ behind;
        tally = (after_pin done w b.tally).1;
      })
  -- The deferred `<-r.sem` and `wg.Done()`.
  leave :
      {s : ℕ} {b : Batch} (front behind : List Worker) (w : Worker)
      → b.flying ≡ front ++ w ∷ behind
      → w.stage ≡ leaving
      → Move c (suc s) b s (record b { flying = front ++ behind })

pub record Pool : Type 0 where
  pub runner : AutoPinRunner
  pub slots : ℕ
  pub batches : List Batch

abbrev pub start_pool : AutoPinRunner → Pool
start_pool r = record { runner = r; slots = 0; batches = [] }

pub data Step (p : Pool) (q : Pool) : Type 0 where
  -- A caller enters `Run` with some items and sheds.
  enter :
      (items : List DiscoveredItem)
      → q ≡ record p { batches = p.batches ++ start_batch p.runner items ∷ [] }
      → Step p q
  inside :
      (front behind : List Batch) (b b' : Batch) (s : ℕ)
      → p.batches ≡ front ++ b ∷ behind
      → Move p.runner.concurrency p.slots b s b'
      → q ≡ record p { slots = s; batches = front ++ b' ∷ behind }
      → Step p q
  -- The context of a call is cancelled from outside.
  cancel :
      (front behind : List Batch) (b : Batch)
      → p.batches ≡ front ++ b ∷ behind
      → b.cancelled ≡ false
      → q ≡ record p { batches = front ++ record b { cancelled = true } ∷ behind }
      → Step p q

pub data Reach (r : AutoPinRunner) : Pool → Type 0 where
  here : Reach r (start_pool r)
  next : {p q : Pool} → Reach r p → Step p q → Reach r q

-- `wg.Wait()` returns: the loop has ended and no goroutine is left.
abbrev pub HasReturned : Batch → Type 0
HasReturned b = (b.flying ≡ []) × (b.waiting ≡ []) ⊎ (b.flying ≡ []) × (b.stopped ≡ true)

-- What `Run` returns.
unfoldable pub final_result : AutoPinRunner → Batch → AutoPinResult
final_result r b = record (first_result r b.items) {
  pinned = b.tally.pinned;
  failed = b.tally.failed;
  is_pinned_errors = b.tally.is_pinned_errors;
}
