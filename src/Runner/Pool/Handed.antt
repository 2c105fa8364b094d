-- ===== src/Runner/Pool/Handed.antt =====
-- autopin_runner.go: which items the goroutines of a call of `Run` have in hand, over every
-- interleaving.
use pevo_pinner.Prelude.{
  ℕ, suc, ◌+◌, ◌≤◌, ◌≡◌, refl, ap, inl, inr, Bool, true, false, not, List, [], ◌∷◌, ◌++◌, map, All,
  All-append, All-middle, Bool-cases, arith, if◌then◌else◌,
}
use pevo_pinner.Discovery.{DiscoveredItem}
use pevo_pinner.Runner.{AutoPinRunner, shed}
use pevo_pinner.Runner.Shedding.{within_cap, shed_queued}
use pevo_pinner.Runner.Pool.{
  Tally, Worker, Probe, probe_error, answered, after_probe, after_pin, Batch, Move, schedule,
  break_schedule, cancel, probed, pin_returned, leave, Pool, Step, enter, inside, Reach, here, next,
}
use pevo_pinner.Runner.Pool.Slots.{Reach-runner}

-- How many items pass a test.
unfoldable pub count_if : (DiscoveredItem → Bool) → List DiscoveredItem → ℕ
count_if f [] = 0
count_if f (i ∷ is) = if f i then suc (count_if f is) else count_if f is

abbrev pub items_of : List Worker → List DiscoveredItem
items_of = map (λ w. w.item)

-- No item passes the opposite of a test that all pass.
pub count_if-not :
    (p : DiscoveredItem → Bool) (is : List DiscoveredItem)
    → count_if (λ i. not (p i)) is ≡ 0
    → All (λ i. p i ≡ true) is
unfolding count_if
count_if-not p [] h = tt
count_if-not p (i ∷ is) h = elim (Bool-cases (p i)) [
  | inl e ↦ (e, count_if-not p is (rw (e, count_if) at h))
  | inr e ↦ let g = rw (e, count_if) at h in absurd (omega (arith, g))
]

module _ (f : DiscoveredItem → Bool) where
  count_if-middle :
      (xs ys : List Worker) (w : Worker)
      → count_if f (items_of (xs ++ w ∷ ys))
        ≡ count_if f (w.item ∷ []) + count_if f (items_of (xs ++ ys))
  unfolding count_if
  count_if-middle [] ys w = ground arith
  count_if-middle (x ∷ xs) ys w = ground (arith, count_if-middle xs ys w)

  pub count_if-within_cap :
      (cap : ℕ) (earlier is : List DiscoveredItem)
      → count_if f (within_cap cap earlier is) ≤ count_if f is
  unfolding count_if within_cap
  count_if-within_cap cap earlier [] = omega arith
  count_if-within_cap cap earlier (i ∷ is) =
      ground (arith, count_if-within_cap cap (i ∷ earlier) is)

  -- The queue has no item that the batch has not.
  pub count_if-shed :
      (r : AutoPinRunner) (items : List DiscoveredItem)
      → count_if f (shed r items).queued ≤ count_if f items
  count_if-shed r items = rw (shed_queued r items) (count_if-within_cap r.author_cap [] items)

  in_hand : Batch → ℕ
  in_hand b = count_if f b.waiting + count_if f (items_of b.flying)

  after_probe-item : (a : Probe) (w : Worker) (t : Tally) → (after_probe a w t).0.item ≡ w.item
  after_probe-item probe_error w t = refl
  after_probe-item (answered true) w t = refl
  after_probe-item (answered false) w t = refl

  after_pin-item : (done : Bool) (w : Worker) (t : Tally) → (after_pin done w t).0.item ≡ w.item
  after_pin-item true w t = refl
  after_pin-item false w t = refl

  Move-in_hand :
      {c s s' : ℕ} {b b' : Batch}
      → Move c s b s' b'
      → (in_hand b' ≤ in_hand b) × (b'.items ≡ b.items)
  unfolding in_hand count_if
  Move-in_hand (schedule item rest h w lt) = (ground (arith, ap (count_if f) w), refl)
  Move-in_hand (break_schedule item rest h w d) = (omega arith, refl)
  Move-in_hand (probed {b} front behind w a e h) = (
    omega (
      arith,
      ap (λ ws. count_if f (items_of ws)) e,
      count_if-middle front behind w,
      count_if-middle front behind (after_probe a w b.tally).0,
      ap (λ i. count_if f (i ∷ [])) (after_probe-item a w b.tally),
    ),
    refl,
  )
  Move-in_hand (pin_returned {b} front behind w done e h) = (
    omega (
      arith,
      ap (λ ws. count_if f (items_of ws)) e,
      count_if-middle front behind w,
      count_if-middle front behind (after_pin done w b.tally).0,
      ap (λ i. count_if f (i ∷ [])) (after_pin-item done w b.tally),
    ),
    refl,
  )
  Move-in_hand (leave {b} front behind w e h) =
      (omega (arith, ap (λ ws. count_if f (items_of ws)) e, count_if-middle front behind w), refl)

  abbrev IsOfQueue : AutoPinRunner → Batch → Type 0
  IsOfQueue r b = in_hand b ≤ count_if f (shed r b.items).queued

  Step-IsOfQueue :
      {p q : Pool}
      → Step p q
      → All (IsOfQueue p.runner) p.batches
      → All (IsOfQueue q.runner) q.batches
  unfolding in_hand
  Step-IsOfQueue {p} (enter items e) v =
      rw e (All-append _ p.batches _ v (unfold count_if in omega arith, tt))
  Step-IsOfQueue {p} (inside front behind b b' s e m e') v =
      let (before, this, after) = All-middle (IsOfQueue p.runner) front behind (rw e at v) in
      let (less, same_items) = Move-in_hand m in
      rw e' (All-append _ front _ before (rw same_items (omega (arith, less, this)), after))
  Step-IsOfQueue {p} (cancel front behind b e h e') v =
      let (before, this, after) = All-middle (IsOfQueue p.runner) front behind (rw e at v) in
      rw e' (All-append _ front _ before (this, after))

  Reach-IsOfQueue : {r : AutoPinRunner} {p : Pool} → Reach r p → All (IsOfQueue p.runner) p.batches
  Reach-IsOfQueue here = tt
  Reach-IsOfQueue (next h s) = Step-IsOfQueue s (Reach-IsOfQueue h)

  -- The items that wait or are in the hands of a goroutine are among those of the queue.
  pub Reach-in_hand :
      (r : AutoPinRunner) (p : Pool) (front behind : List Batch) (b : Batch)
      → Reach r p
      → p.batches ≡ front ++ b ∷ behind
      → count_if f (items_of b.flying) ≤ count_if f (shed r b.items).queued
  unfolding in_hand
  Reach-in_hand r p front behind b h e =
      let this : IsOfQueue r b =
        (All-middle (IsOfQueue r) front behind (rw (Reach-runner h, e) at (Reach-IsOfQueue h))).1 in
      omega (arith, this)
