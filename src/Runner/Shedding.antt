-- ===== src/Runner/Shedding.antt =====
-- autopin_runner.go: what the per-author cap lets through.
use pevo_pinner.Prelude.{
  ℕ, suc, ◌+◌, ◌≡◌, refl, sym, ◌∙◌, List, [], ◌∷◌, ◌++◌, min, append-nil, append_assoc, length,
  length-append, Bool-cases, inl, inr, leb, arith, if◌then◌else◌,
}
use pevo_pinner.Prelude.Text.{Text, same, same_iff}
use pevo_pinner.Discovery.{DiscoveredItem}
use pevo_pinner.Runner.{
  AutoPinRunner, Counts, count_of, bump, sum_counts, Shed, shed_item, shed_loop, shed, first_result,
}

-- How many items are by an author.
unfoldable pub by_author : Text → List DiscoveredItem → ℕ
unfolding same
by_author a [] = 0
by_author a (i ∷ is) = if same i.author a then suc (by_author a is) else by_author a is

-- The items with fewer than `cap` items by the same author before them.
unfoldable pub within_cap : ℕ → List DiscoveredItem → List DiscoveredItem → List DiscoveredItem
unfolding by_author
within_cap cap earlier [] = []
within_cap cap earlier (i ∷ is) =
    if leb cap (by_author i.author earlier)
    then within_cap cap (i ∷ earlier) is
    else i ∷ within_cap cap (i ∷ earlier) is

count_of-bump :
    (a b : Text) (m : Counts)
    → count_of b (bump a m) ≡ (if same a b then suc (count_of b m) else count_of b m)
unfolding count_of bump
count_of-bump a b [] = refl
count_of-bump a b ((k, n) ∷ m) =
    ground (arith, same_iff k a, same_iff k b, same_iff a b, count_of-bump a b m)

sum-bump : (a : Text) (m : Counts) → sum_counts (bump a m) ≡ suc (sum_counts m)
unfolding bump sum_counts
sum-bump a [] = refl
sum-bump a ((k, n) ∷ m) = ground (arith, sum-bump a m)

-- The map holds, for each author, the number of earlier items, up to the cap.
abbrev Tracks : ℕ → List DiscoveredItem → Counts → Type 0
Tracks cap earlier m = (a : Text) → count_of a m ≡ min cap (by_author a earlier)

shed_item-Tracks :
    (cap : ℕ) (i : DiscoveredItem) (earlier : List DiscoveredItem) (s : Shed)
    → Tracks cap earlier s.author_count
    → Tracks cap (i ∷ earlier) (shed_item cap i s).author_count
unfolding shed_item by_author
shed_item-Tracks cap i earlier s t a =
    ground (arith, t a, t i.author, same_iff i.author a, count_of-bump i.author a s.author_count)

shed_item_queued :
    (cap : ℕ) (i : DiscoveredItem) (earlier : List DiscoveredItem) (s : Shed)
    → Tracks cap earlier s.author_count
    → (shed_item cap i s).queued
      ≡ (if leb cap (by_author i.author earlier) then s.queued else s.queued ++ i ∷ [])
unfolding shed_item
shed_item_queued cap i earlier s t = ground (arith, t i.author)

shed_loop_queued :
    (cap : ℕ) (is earlier : List DiscoveredItem) (s : Shed)
    → Tracks cap earlier s.author_count
    → (shed_loop cap is s).queued ≡ s.queued ++ within_cap cap earlier is
unfolding shed_loop within_cap
shed_loop_queued cap [] earlier s t = sym (append-nil s.queued)
shed_loop_queued cap (i ∷ is) earlier s t =
    shed_loop_queued cap is (i ∷ earlier) (shed_item cap i s) (shed_item-Tracks cap i earlier s t)
    ∙ rw (shed_item_queued cap i earlier s t)
        (elim (Bool-cases (leb cap (by_author i.author earlier))) [
          | inl full ↦ rw full
          | inr room ↦ rw room (append_assoc s.queued (i ∷ []) (within_cap cap (i ∷ earlier) is))
        ])

shed_item_total :
    (cap : ℕ) (i : DiscoveredItem) (s : Shed)
    → sum_counts (shed_item cap i s).shed_by_author + length (shed_item cap i s).queued
      ≡ sum_counts s.shed_by_author + length s.queued + 1
unfolding shed_item
shed_item_total cap i s =
    ground (arith, sum-bump i.author s.shed_by_author, length-append s.queued (i ∷ []))

shed_loop_total :
    (cap : ℕ) (is : List DiscoveredItem) (s : Shed)
    → sum_counts (shed_loop cap is s).shed_by_author + length (shed_loop cap is s).queued
      ≡ sum_counts s.shed_by_author + length s.queued + length is
unfolding shed_loop
shed_loop_total cap [] s = omega arith
shed_loop_total cap (i ∷ is) s =
    omega (arith, shed_loop_total cap is (shed_item cap i s), shed_item_total cap i s)

by_author-within_cap :
    (cap : ℕ) (a : Text) (earlier is : List DiscoveredItem)
    → by_author a (within_cap cap earlier is) + min cap (by_author a earlier)
      ≡ min cap (by_author a earlier + by_author a is)
unfolding within_cap by_author
by_author-within_cap cap a earlier [] = omega arith
by_author-within_cap cap a earlier (i ∷ is) =
    ground (arith, by_author-within_cap cap a (i ∷ earlier) is, same_iff i.author a)

-- The queue holds, in order, exactly the items with fewer than cap earlier items of the batch by
-- the same author.
pub shed_queued :
    (r : AutoPinRunner) (items : List DiscoveredItem)
    → (shed r items).queued ≡ within_cap r.author_cap [] items
unfolding shed
shed_queued r items =
    shed_loop_queued r.author_cap items []
      (record { author_count = []; shed_by_author = []; queued = [] })
      (λ a. unfold count_of by_author in omega arith)

-- After shedding, the queue holds for each author as many items as the batch has by that author, or
-- the cap if that is fewer.
pub by_author-shed :
    (r : AutoPinRunner) (a : Text) (items : List DiscoveredItem)
    → by_author a (shed r items).queued ≡ min r.author_cap (by_author a items)
unfolding by_author
by_author-shed r a items =
    rw (shed_queued r items) (omega (arith, by_author-within_cap r.author_cap a [] items))

-- Every item is either queued or counted as shed.
pub shed_total :
    (r : AutoPinRunner) (items : List DiscoveredItem)
    → (first_result r items).matched ≡ (first_result r items).shed + length (shed r items).queued
unfolding first_result
shed_total r items =
    let start : Shed = record { author_count = []; shed_by_author = []; queued = [] } in
    unfold shed sum_counts in omega (arith, shed_loop_total r.author_cap items start)
