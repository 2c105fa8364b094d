-- ===== src/Runner/Pool/Progress/Finish.antt =====
-- autopin_runner.go: from every reachable state all calls of `Run` can come to their end.
use pevo_pinner.Prelude.{
  ℕ, zero, suc, ◌+◌, ◌<◌, ◌≡◌, refl, ap, inl, inr, ◌⊎◌, Bool, true, false, List, [], ◌∷◌, ◌++◌, All,
  arith,
}
use pevo_pinner.Discovery.{DiscoveredItem}
use pevo_pinner.Prelude.Int.{ℤ}
use pevo_pinner.Runner.{new_auto_pin_runner}
use pevo_pinner.Runner.Pool.{Worker, Batch, Pool, Reach, inside, next, HasReturned}
use pevo_pinner.Runner.Pool.Progress.{steps_left, Move-lt, Forward, Reach-CanMove}

-- Some steps of the code, with no new call of `Run`, no cancellation and no `break schedule`.
pub data Run : Pool → Pool → Type 0 where
  done : {p : Pool} → Run p p
  go :
      {p q : Pool} (front behind : List Batch) (b b' : Batch) (s : ℕ)
      → p.batches ≡ front ++ b ∷ behind
      → Forward p.runner.concurrency p.slots b s b'
      → Run (record p { slots = s; batches = front ++ b' ∷ behind }) q
      → Run p q

abbrev all_steps : List Batch → ℕ
all_steps [] = 0
all_steps (b ∷ bs) = steps_left b + all_steps bs

all_steps-append : (xs ys : List Batch) → all_steps (xs ++ ys) ≡ all_steps xs + all_steps ys
all_steps-append [] ys = omega arith
all_steps-append (x ∷ xs) ys = omega (arith, all_steps-append xs ys)

-- A batch has returned or has not.
returned_lem :
    (b : Batch) (fl : List Worker) (wt : List DiscoveredItem) (st : Bool)
    → b.flying ≡ fl
    → b.waiting ≡ wt
    → b.stopped ≡ st
    → HasReturned b ⊎ (¬ HasReturned b)
returned_lem b (x ∷ fl) wt st e w s =
    inr (λ h. elim h [ inl (f, _) ↦ cc (e, f) | inr (f, _) ↦ cc (e, f) ])
returned_lem b [] [] st e w s = inl (inl (e, w))
returned_lem b [] (i ∷ wt) true e w s = inl (inr (e, s))
returned_lem b [] (i ∷ wt) false e w s =
    inr (λ h. elim h [ inl (_, f) ↦ cc (w, f) | inr (_, f) ↦ cc (s, f) ])

some_busy :
    (bs : List Batch)
    → All HasReturned bs
      ⊎ ((front : List Batch) × (behind : List Batch) × (b : Batch) × (bs ≡ front ++ b ∷ behind)
          × (¬ HasReturned b))
some_busy [] = inl tt
some_busy (b ∷ bs) = elim (returned_lem b b.flying b.waiting b.stopped refl refl refl) [
  | inr busy ↦ inr ([], bs, b, refl, busy)
  | inl over ↦ elim (some_busy bs) [
    | inl rest ↦ inl (over, rest)
    | inr (front, behind, b', e, busy) ↦ inr (b ∷ front, behind, b', ap (◌∷◌ b) e, busy)
  ]
]

-- A pool in which a call of `Run` has not returned makes a step that leaves it with less to do.
one_step :
    (c a : ℤ) (p : Pool) (front behind : List Batch) (b : Batch)
    → Reach (new_auto_pin_runner c a) p
    → p.batches ≡ front ++ b ∷ behind
    → ¬ HasReturned b
    → (p' : Pool) × Reach (new_auto_pin_runner c a) p'
      × (all_steps p'.batches < all_steps p.batches)
      × ((q : Pool) → Run p' q → Run p q)
one_step c a p front behind b h e busy =
    let (front', behind', b₁, b₂, s, e', (m, same_loop)) =
      Reach-CanMove c a p front behind b h e busy in
    (
      record p { slots = s; batches = front' ++ b₂ ∷ behind' },
      next h (inside front' behind' b₁ b₂ s e' m refl),
      omega (
        arith,
        ap all_steps e',
        all_steps-append front' (b₁ ∷ behind'),
        all_steps-append front' (b₂ ∷ behind'),
        Move-lt m,
      ),
      λ q. go front' behind' b₁ b₂ s e' (m, same_loop),
    )

finish :
    (fuel : ℕ) (c a : ℤ) (p : Pool)
    → Reach (new_auto_pin_runner c a) p
    → all_steps p.batches < fuel
    → (q : Pool) × Run p q × All HasReturned q.batches
finish zero c a p h lt = absurd (omega arith)
finish (suc fuel) c a p h lt = elim (some_busy p.batches) [
  | inl over ↦ (p, done, over)
  | inr (front, behind, b, e, busy) ↦
      let (p', h', less, back) = one_step c a p front behind b h e busy in
      let (q, run, over) = finish fuel c a p' h' (omega (arith, less, lt)) in (q, back q run, over)
]

-- With a runner made by NewAutoPinRunner from any two numbers, every reachable pool has a finite
-- sequence of steps of its loops and goroutines, without a new call of Run, a cancellation or a
-- loop that is broken off, after which every call of Run has returned.
pub Reach-CanFinish :
    (c a : ℤ) (p : Pool)
    → Reach (new_auto_pin_runner c a) p
    → (q : Pool) × Run p q × All HasReturned q.batches
Reach-CanFinish c a p h = finish (suc (all_steps p.batches)) c a p h (omega arith)
