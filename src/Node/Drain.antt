-- ===== src/Node/Drain.antt =====
-- ipfsnode.go: the gate of Pin and its deferred function, with Drain and signalDone, as the steps that
-- any number of goroutines take. The work of a pin stands between its steps.
use pevo_pinner.Prelude.{
  ℕ, suc, ◌+◌, ◌%◌, ◌<◌, if◌then◌else◌, ◌≤◌, ◌≡◌, refl, ap, Bool, true, false, ◌||◌, ◌==◌, ◌⊎◌, inl,
  inr, append_assoc, List, [], ◌∷◌, ◌++◌, length, length-append, length-middle, All, All-append,
  All-middle, All-map, arith,
}
use native.Mathlib.Nat.{mod-eq_of_lt, mod-le}

-- The fields under drainMu and the wait group. `leaving` counts the pins that have deleted their
-- cancel function and have not called Done; `has_drained` says that some Drain returned nil,
-- `cancelled` lists the pins whose context a Drain cancelled at its deadline, and `has_expired` says
-- that some Drain did so. `accepted` counts the pins that have passed the gate; `next_pin_id` is a
-- uint64.
pub record Gate : Type 0 where
  pub done : Bool
  pub in_flight : ℕ
  pub cancels : List ℕ
  pub next_pin_id : ℕ
  pub accepted : ℕ
  pub leaving : ℕ
  pub has_drained : Bool
  pub cancelled : List ℕ
  pub has_expired : Bool

abbrev pub open_gate : Gate
open_gate = record {
  done = false;
  in_flight = 0;
  cancels = [];
  next_pin_id = 0;
  accepted = 0;
  leaving = 0;
  has_drained = false;
  cancelled = [];
  has_expired = false;
}

-- `n.nextPinID++`
unfoldable pub next_id : ℕ → ℕ
next_id n = suc n % 18446744073709551616

abbrev pub without : ℕ → List ℕ → List ℕ
without k [] = []
without k (x ∷ xs) = if k == x then without k xs else x ∷ without k xs

-- `n.cancels[pinID] = pinCancel`, which takes the place of an entry with this ID.
unfoldable pub register : ℕ → List ℕ → List ℕ
register id ids = id ∷ without id ids

pub data GateStep : Gate → Gate → Type 0 where
  -- Pin finds the channel closed and returns ErrPinnerShuttingDown.
  refuse : (g : Gate) → g.done ≡ true → GateStep g g
  enter :
      (g : Gate)
      → g.done ≡ false
      → GateStep g (record g {
        in_flight = suc g.in_flight;
        next_pin_id = next_id g.next_pin_id;
        accepted = suc g.accepted;
        cancels = register (next_id g.next_pin_id) g.cancels;
      })
  -- The deferred function, under the lock, and then its call of Done.
  unregister :
      (g : Gate) (xs ys : List ℕ) (id : ℕ)
      → g.cancels ≡ xs ++ id ∷ ys
      → GateStep g (record g { cancels = xs ++ ys; leaving = suc g.leaving })
  leave :
      (g : Gate) (n m : ℕ)
      → g.in_flight ≡ suc n
      → g.leaving ≡ suc m
      → GateStep g (record g { in_flight = n; leaving = m })
  -- Drain and Close.
  signal_done : (g : Gate) → GateStep g (record g { done = true })
  -- The Wait of a Drain that has signalled returns, and Drain returns nil.
  drained :
      (g : Gate) → g.done ≡ true → g.in_flight ≡ 0 → GateStep g (record g { has_drained = true })
  -- The deadline of a Drain that has signalled passes: it cancels every pin that is registered.
  expire :
      (g : Gate)
      → g.done ≡ true
      → GateStep g (record g { cancelled = g.cancels ++ g.cancelled; has_expired = true })

pub data GateReach : Gate → Type 0 where
  start : GateReach open_gate
  later : (g h : Gate) → GateReach g → GateStep g h → GateReach h

abbrev pub has_id : ℕ → List ℕ → Bool
has_id k [] = false
has_id k (x ∷ xs) = k == x || has_id k xs

has_id-append : (k : ℕ) (xs ys : List ℕ) → has_id k (xs ++ ys) ≡ (has_id k xs || has_id k ys)
has_id-append k [] ys = refl
has_id-append k (x ∷ xs) ys = ground (arith, has_id-append k xs ys)

-- The members of a list are listed behind any others and before any others.
listed_members :
    (before xs after : List ℕ) → All (λ k. has_id k (before ++ (xs ++ after)) ≡ true) xs
listed_members before [] after = tt
listed_members before (x ∷ xs) after = (
  rw (has_id-append x before (x ∷ (xs ++ after))) (ground arith),
  rw (append_assoc before (x ∷ []) (xs ++ after)) at (listed_members (before ++ x ∷ []) xs after),
)

-- Every pin in flight is registered or about to leave, no registered ID is larger than the counter,
-- once a Drain has returned nil the gate is shut and no pin is in flight, and once the deadline of a
-- Drain has passed the gate is shut and every registered pin is cancelled.
abbrev pub IsCounted : Gate → Type 0
IsCounted g =
    (g.in_flight ≡ length g.cancels + g.leaving)
    × All (λ id. id ≤ g.next_pin_id) g.cancels
    × ((g.has_drained ≡ false) ⊎ ((g.done ≡ true) × (g.in_flight ≡ 0)))
    × ((g.has_expired ≡ false)
        ⊎ ((g.done ≡ true) × All (λ id. has_id id g.cancelled ≡ true) g.cancels))

without-absent : (n : ℕ) (ids : List ℕ) → All (λ id. id ≤ n) ids → without (suc n) ids ≡ ids
without-absent n [] bound = refl
without-absent n (x ∷ xs) (le, bound) = ground (arith, le, without-absent n xs bound)

-- Without an overflow, the ID of a pin is new.
register-fresh :
    (n : ℕ) (ids : List ℕ)
    → suc n < 18446744073709551616
    → All (λ id. id ≤ n) ids
    → (next_id n ≡ suc n) × (register (next_id n) ids ≡ suc n ∷ ids)
unfolding next_id register
register-fresh n ids small bound =
    let e : next_id n ≡ suc n = mod-eq_of_lt small in
    (e, rw e (rw (without-absent n ids bound) refl))

next_id-le : (n m : ℕ) → n ≤ m → next_id n ≤ suc m
unfolding next_id
next_id-le n m le = let small = mod-le (suc n) (18446744073709551616) in omega (arith, le, small)

enter-IsCounted :
    (g h : Gate)
    → g.done ≡ false
    → suc g.next_pin_id < 18446744073709551616
    → IsCounted g
    → IsCounted (record g {
      in_flight = suc g.in_flight;
      next_pin_id = next_id g.next_pin_id;
      accepted = suc g.accepted;
      cancels = register (next_id g.next_pin_id) g.cancels;
    })
enter-IsCounted g h e small (n, ids, d, x) =
    let (same_id, fresh) = register-fresh g.next_pin_id g.cancels small ids in
    (
      rw fresh (omega (arith, n)),
      rw (fresh, same_id) (omega arith, All-map (λ i b. omega (arith, b)) g.cancels ids),
      elim d [ inl not_yet ↦ inl not_yet | inr (shut, none_left) ↦ absurd (cc (shut, e)) ],
      elim x [ inl not_yet ↦ inl not_yet | inr (shut, all_listed) ↦ absurd (cc (shut, e)) ],
    )

-- The counter is at most the number of accepted pins.
GateReach-accepted : (g : Gate) → GateReach g → g.next_pin_id ≤ g.accepted
GateReach-accepted g start = omega arith
GateReach-accepted g (later f _ r (refuse _ e)) = GateReach-accepted f r
GateReach-accepted g (later f _ r (enter _ e)) =
    next_id-le f.next_pin_id f.accepted (GateReach-accepted f r)
GateReach-accepted g (later f _ r (unregister _ xs ys id e)) = GateReach-accepted f r
GateReach-accepted g (later f _ r (leave _ a b e k)) = GateReach-accepted f r
GateReach-accepted g (later f _ r (signal_done _)) = GateReach-accepted f r
GateReach-accepted g (later f _ r (drained _ e k)) = GateReach-accepted f r
GateReach-accepted g (later f _ r (expire _ e)) = GateReach-accepted f r

GateStep-accepted : (g h : Gate) → GateStep g h → g.accepted ≤ h.accepted
GateStep-accepted g h (refuse _ e) = omega arith
GateStep-accepted g h (enter _ e) = omega arith
GateStep-accepted g h (unregister _ xs ys id e) = omega arith
GateStep-accepted g h (leave _ a b e k) = omega arith
GateStep-accepted g h (signal_done _) = omega arith
GateStep-accepted g h (drained _ e k) = omega arith
GateStep-accepted g h (expire _ e) = omega arith

GateStep-IsCounted :
    (g h : Gate)
    → g.next_pin_id ≤ g.accepted
    → h.accepted < 18446744073709551616
    → IsCounted g
    → GateStep g h
    → IsCounted h
GateStep-IsCounted g h le small k (refuse _ e) = k
GateStep-IsCounted g h le small k (enter _ e) = enter-IsCounted g h e (omega (arith, le, small)) k
GateStep-IsCounted g h le small (n, ids, d, x) (unregister _ xs ys id e) =
    let (front, mid, behind) = All-middle (λ id. id ≤ g.next_pin_id) xs ys (rw e at ids) in
    (
      omega (arith, n, length-append {0} xs ys, length-middle xs ys id, ap length e),
      All-append (λ id. id ≤ g.next_pin_id) xs ys front behind,
      d,
      elim x [
        | inl not_yet ↦ inl not_yet
        | inr (shut, all_listed) ↦
            let (before, this, after) =
              All-middle (λ id. has_id id g.cancelled ≡ true) xs ys (rw e at all_listed) in
            inr (shut, All-append (λ id. has_id id g.cancelled ≡ true) xs ys before after)
      ],
    )
GateStep-IsCounted g h le small (n, ids, d, x) (leave _ a b e f) = (
  omega (arith, n, e, f),
  ids,
  elim d [
    | inl not_yet ↦ inl not_yet
    | inr (shut, none_left) ↦ inr (shut, omega (arith, e, none_left))
  ],
  x,
)
GateStep-IsCounted g h le small (n, ids, d, x) (signal_done _) = (
  n,
  ids,
  elim d [ inl not_yet ↦ inl not_yet | inr (shut, none_left) ↦ inr (refl, none_left) ],
  elim x [ inl not_yet ↦ inl not_yet | inr (shut, all_listed) ↦ inr (refl, all_listed) ],
)
GateStep-IsCounted g h le small (n, ids, d, x) (drained _ e f) = (n, ids, inr (e, f), x)
GateStep-IsCounted g h le small (n, ids, d, x) (expire _ e) =
    (n, ids, d, inr (e, listed_members [] g.cancels g.cancelled))

-- At any moment of any interleaving of pins and drains in which fewer than 2^64 pins have been
-- accepted, the wait group counts the pins that have a cancel function registered and those that
-- are leaving, no registered ID is above the counter, once a Drain has returned nil no pin is
-- accepted and none is in flight, and once the deadline of a Drain has passed no pin is accepted
-- and every registered one is cancelled.
pub GateReach-IsCounted : (g : Gate) → GateReach g → g.accepted < 18446744073709551616 → IsCounted g
GateReach-IsCounted g start small = (omega arith, tt, inl refl, inl refl)
GateReach-IsCounted g (later f _ r s) small =
    let grows = GateStep-accepted f g s in
    GateStep-IsCounted f g (GateReach-accepted f r) small
      (GateReach-IsCounted f r (omega (arith, grows, small))) s
