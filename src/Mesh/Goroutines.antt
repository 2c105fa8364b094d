-- ===== src/Mesh/Goroutines.antt =====
-- ipfsnode_pubsub.go: the goroutines of the mesh manager with its wait group: the loops that startMesh
-- starts, the dials of applyHeartbeat, Stop, and what shutdownInternals (ipfsnode.go) does behind it.
use pevo_pinner.Prelude.{
  ℕ, zero, suc, ◌+◌, ◌≡◌, refl, sym, ◌⊎◌, inl, inr, Bool, true, false, not, arith, Bool-cases,
}

-- `dials` counts the dials that run, `wg` is the counter of the wait group, `is_cancelled` is the
-- context of the manager and `is_unsubscribed` its subscription. `has_stopped` says that Stop has
-- returned, and `is_host_closed` that the host has been closed behind it.
pub record Goroutines : Type 0 where
  pub receives : Bool
  pub evicts : Bool
  pub advertises : Bool
  pub dials : ℕ
  pub wg : ℕ
  pub is_cancelled : Bool
  pub is_unsubscribed : Bool
  pub is_topic_open : Bool
  pub has_stopped : Bool
  pub is_host_closed : Bool

abbrev pub one_if : Bool → ℕ
one_if true = 1
one_if false = 0

-- The three `wg.Add(1)` of startMesh, each with its loop.
unfoldable pub started : (advertise_off : Bool) → Goroutines
started advertise_off = record {
  receives = true;
  evicts = true;
  advertises = not advertise_off;
  dials = 0;
  wg = 2 + one_if (not advertise_off);
  is_cancelled = false;
  is_unsubscribed = false;
  is_topic_open = true;
  has_stopped = false;
  is_host_closed = false;
}

-- `wg.Done` on a counter that is not 0.
pub data GoStep : Goroutines → Goroutines → Type 0 where
  -- The receive loop takes in a heartbeat of a new peer.
  dial :
      (g : Goroutines)
      → g.receives ≡ true
      → GoStep g (record g { dials = suc g.dials; wg = suc g.wg })
  -- A dial ends, by itself, by its deadline or by the cancelled context.
  dialled :
      (g : Goroutines) (n w : ℕ)
      → g.dials ≡ suc n
      → g.wg ≡ suc w
      → GoStep g (record g { dials = n; wg = w })
  -- `sub.Next` fails.
  leave_receive :
      (g : Goroutines) (w : ℕ)
      → g.receives ≡ true
      → g.wg ≡ suc w
      → GoStep g (record g { receives = false; wg = w })
  leave_evict :
      (g : Goroutines) (w : ℕ)
      → g.evicts ≡ true
      → g.is_cancelled ≡ true
      → g.wg ≡ suc w
      → GoStep g (record g { evicts = false; wg = w })
  leave_advertise :
      (g : Goroutines) (w : ℕ)
      → g.advertises ≡ true
      → g.is_cancelled ≡ true
      → g.wg ≡ suc w
      → GoStep g (record g { advertises = false; wg = w })
  -- Stop: the calls of `cancel` and of `sub.Cancel`, and then the return of `wg.Wait` with the close
  -- of the topic.
  cancel : (g : Goroutines) → GoStep g (record g { is_cancelled = true })
  unsubscribe :
      (g : Goroutines) → g.is_cancelled ≡ true → GoStep g (record g { is_unsubscribed = true })
  waited :
      (g : Goroutines)
      → g.is_unsubscribed ≡ true
      → g.wg ≡ 0
      → GoStep g (record g { is_topic_open = false; has_stopped = true })
  -- shutdownInternals closes the host behind Stop.
  close_host :
      (g : Goroutines) → g.has_stopped ≡ true → GoStep g (record g { is_host_closed = true })

pub data GoReach (advertise_off : Bool) : Goroutines → Type 0 where
  start : GoReach advertise_off (started advertise_off)
  later : (g h : Goroutines) → GoReach advertise_off g → GoStep g h → GoReach advertise_off h

-- The goroutines that run.
abbrev pub running : Goroutines → ℕ
running g = one_if g.receives + one_if g.evicts + one_if g.advertises + g.dials

abbrev pub IsWaited : (advertise_off : Bool) → Goroutines → Type 0
IsWaited advertise_off g =
    (g.wg ≡ running g)
    × ((g.advertises ≡ false) ⊎ (advertise_off ≡ false))
    × ((g.has_stopped ≡ false) ⊎ ((g.is_cancelled ≡ true) × (g.wg ≡ 0)))
    × ((g.is_unsubscribed ≡ false) ⊎ (g.is_cancelled ≡ true))
    × ((g.is_host_closed ≡ false) ⊎ (g.has_stopped ≡ true))
    × ((g.is_topic_open ≡ true) ⊎ (g.has_stopped ≡ true))

GoStep-IsWaited : (off : Bool) (g h : Goroutines) → IsWaited off g → GoStep g h → IsWaited off h
GoStep-IsWaited off g h (n, a, s, u, c, t) (dial _ e) = ground (arith, n, a, s, u, c, t, e)
GoStep-IsWaited off g h (n, a, s, u, c, t) (dialled _ m w e f) =
    ground (arith, n, a, s, u, c, t, e, f)
GoStep-IsWaited off g h (n, a, s, u, c, t) (leave_receive _ w e f) =
    ground (arith, n, a, s, u, c, t, e, f)
GoStep-IsWaited off g h (n, a, s, u, c, t) (leave_evict _ w e k f) =
    ground (arith, n, a, s, u, c, t, e, f)
GoStep-IsWaited off g h (n, a, s, u, c, t) (leave_advertise _ w e k f) =
    ground (arith, n, a, s, u, c, t, e, f)
GoStep-IsWaited off g h (n, a, s, u, c, t) (cancel _) = ground (arith, n, a, s, u, c, t)
GoStep-IsWaited off g h (n, a, s, u, c, t) (unsubscribe _ e) = ground (arith, n, a, s, u, c, t, e)
GoStep-IsWaited off g h (n, a, s, u, c, t) (waited _ e f) = ground (arith, n, a, s, u, c, t, e, f)
GoStep-IsWaited off g h (n, a, s, u, c, t) (close_host _ e) = ground (arith, n, a, s, u, c, t, e)

GoReach-IsWaited : (off : Bool) (g : Goroutines) → GoReach off g → IsWaited off g
unfolding started
GoReach-IsWaited off g start = ground arith
GoReach-IsWaited off g (later f _ r s) = GoStep-IsWaited off f g (GoReach-IsWaited off f r) s

-- However the goroutines of the mesh interleave, the wait group counts those that run, no loop
-- publishes on a node that is subscribe-only, and once Stop has returned, with the host closed
-- behind it or not, no loop and no dial runs.
pub quiet_after_stop :
    (off : Bool) (g : Goroutines)
    → GoReach off g
    → (g.wg ≡ running g)
      × ((g.advertises ≡ false) ⊎ (off ≡ false))
      × (((g.has_stopped ≡ false) × (g.is_host_closed ≡ false)) ⊎ (running g ≡ 0))
quiet_after_stop off g reach =
    let (n, a, s, u, c, t) = GoReach-IsWaited off g reach in ground (arith, n, a, s, c)

ℕ-cases : (n : ℕ) → (n ≡ 0) ⊎ ((m : ℕ) × (n ≡ suc m))
ℕ-cases zero = inl refl
ℕ-cases (suc m) = inr (m, refl)

-- While Stop waits, either it can return now, or some goroutine can end, which leaves one less to
-- wait for.
pub wait-CanEnd :
    (off : Bool) (g : Goroutines)
    → GoReach off g
    → g.is_unsubscribed ≡ true
    → ((g.wg ≡ 0) × GoStep g (record g { is_topic_open = false; has_stopped = true }))
      ⊎ ((h : Goroutines) × GoStep g h × (suc h.wg ≡ g.wg))
wait-CanEnd off g reach e =
    let (n, a, s, u, c, t) = GoReach-IsWaited off g reach in
    let cancelled : g.is_cancelled ≡ true = ground (arith, u, e) in
    elim (ℕ-cases g.wg) [
      | inl none_left ↦ inl (none_left, waited g e none_left)
      | inr (w, k) ↦ elim (Bool-cases g.receives) [
        | inl r ↦ inr (_, leave_receive g w r k, sym k)
        | inr r ↦ elim (Bool-cases g.evicts) [
          | inl v ↦ inr (_, leave_evict g w v cancelled k, sym k)
          | inr v ↦ elim (Bool-cases g.advertises) [
            | inl b ↦ inr (_, leave_advertise g w b cancelled k, sym k)
            | inr b ↦ elim (ℕ-cases g.dials) [
              | inl no_dial ↦ absurd (ground (arith, n, r, v, b, k, no_dial))
              | inr (d, l) ↦ inr (_, dialled g d w l k, sym k)
            ]
          ]
        ]
      ]
    ]
