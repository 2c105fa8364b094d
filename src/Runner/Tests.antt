-- ===== src/Runner/Tests.antt =====
-- autopin_runner.go: a concrete batch and a concrete interleaving, and the theorems there.
use pevo_pinner.Prelude.{
  ℕ, ◌+◌, ◌≡◌, refl, ◌⊎◌, inl, inr, true, false, List, [], ◌∷◌, map, All, arith,
}
use pevo_pinner.Prelude.Int.{pos, negsuc}
use pevo_pinner.Prelude.Text.{Text, codes}
use pevo_pinner.Discovery.{DiscoveredItem}
use pevo_pinner.Runner.{AutoPinRunner, new_auto_pin_runner, shed, first_result}
use pevo_pinner.Runner.Pool.{
  Batch, probing, pinning, leaving, Pool, Reach, here, next, enter, inside, schedule, probed,
  pin_returned, leave, answered, start_batch, final_result, HasReturned,
}
use pevo_pinner.Runner.Pool.Slots.{IsBounded, Reach-IsBounded}
use pevo_pinner.Runner.Pool.Accounting.{final_result_total}
use pevo_pinner.Runner.Pool.Progress.{CanMove, Reach-CanMove}
use pevo_pinner.Runner.Pool.Progress.Finish.{Run, Reach-CanFinish}

abbrev by : Text → Text → DiscoveredItem
by author cid = record {
  author = author;
  permlink = [];
  title = [];
  cid = cid;
  filename = [];
  cid_type = codes "paper";
  discipline = [];
  created = 0;
}

abbrev flood : List DiscoveredItem
flood =
    by (codes "eve") (codes "1")
    ∷ by (codes "eve") (codes "2")
    ∷ by (codes "ann") (codes "3")
    ∷ by (codes "eve") (codes "4")
    ∷ []

abbrev runner : AutoPinRunner
runner = record { concurrency = 1; author_cap = 1 }

clamped : new_auto_pin_runner (negsuc 4) (pos 1) ≡ runner
unfolding new_auto_pin_runner
clamped = refl

shed_flood :
    (map (λ i. i.cid) (shed runner flood).queued ≡ codes "1" ∷ codes "3" ∷ [])
    × ((first_result runner flood).shed ≡ 2)
unfolding shed first_result
shed_flood = (refl, refl)

-- One item of ann's: scheduled, probed, pinned, left.
abbrev one : List DiscoveredItem
one = by (codes "ann") (codes "3") ∷ []

abbrev b₀ : Batch
b₀ = record (start_batch runner one) { waiting = one }

abbrev b₁ : Batch
b₁ = record b₀ {
  waiting = [];
  flying = record { item = by (codes "ann") (codes "3"); stage = probing } ∷ [];
}

abbrev b₂ : Batch
b₂ = record b₁ { flying = record { item = by (codes "ann") (codes "3"); stage = pinning } ∷ [] }

abbrev b₃ : Batch
b₃ = record b₁ {
  flying = record { item = by (codes "ann") (codes "3"); stage = leaving } ∷ [];
  tally = record { pinned = 1; failed = 0; is_pinned_errors = 0; already = 0 };
}

abbrev b₄ : Batch
b₄ = record b₃ { flying = [] }

abbrev pool_at : ℕ → Batch → Pool
pool_at s b = record { runner = runner; slots = s; batches = b ∷ [] }

entered : Reach runner (pool_at 0 b₀)
unfolding shed
entered = next here (enter one refl)

scheduled : Reach runner (pool_at 1 b₁)
scheduled = next entered (
    inside [] [] b₀ b₁ 1 refl (schedule (by (codes "ann") (codes "3")) [] refl refl (omega arith))
      refl)

finished : Reach runner (pool_at 0 b₄)
finished =
    next
      (next
        (next scheduled
          (inside [] [] b₁ b₂ 1 refl (probed [] [] _ (answered false) refl refl) refl))
        (inside [] [] b₂ b₃ 1 refl (pin_returned [] [] _ true refl refl) refl))
      (inside [] [] b₃ b₄ 0 refl (leave [] [] _ refl refl) refl)

Reach-IsBounded_example : IsBounded (pool_at 1 b₁)
Reach-IsBounded_example = Reach-IsBounded scheduled

final_result_total_example :
    ((final_result runner b₄).matched
      ≡ (final_result runner b₄).pinned
        + (final_result runner b₄).failed
        + (final_result runner b₄).is_pinned_errors
        + (final_result runner b₄).shed
        + 0
        + 0)
    × ((false ≡ true) ⊎ (b₄.waiting ≡ []))
final_result_total_example =
    final_result_total runner (pool_at 0 b₄) [] [] b₄ finished refl (inl (refl, refl))

entered_clamped : Reach (new_auto_pin_runner (negsuc 4) (pos 1)) (pool_at 0 b₀)
unfolding new_auto_pin_runner shed
entered_clamped = next here (enter one refl)

Reach-CanMove_example : CanMove (pool_at 0 b₀)
Reach-CanMove_example =
    Reach-CanMove (negsuc 4) (pos 1) (pool_at 0 b₀) [] [] b₀ entered_clamped refl
      (λ done. elim done [ inl (_, w) ↦ cc | inr (_, st) ↦ cc ])

Reach-CanFinish_example : (q : Pool) × Run (pool_at 0 b₀) q × All HasReturned q.batches
Reach-CanFinish_example = Reach-CanFinish (negsuc 4) (pos 1) (pool_at 0 b₀) entered_clamped
