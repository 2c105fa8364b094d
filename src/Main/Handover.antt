-- ===== src/Main/Handover.antt =====
-- From the database to the backend: what the callback of a refresh hands to the goroutines of Run.
use pevo_pinner.Prelude.{
  ℕ, ◌≤◌, ◌≡◌, refl, sym, inl, inr, Bool, true, false, not, ◌&&◌, Option, none, some, List, [], ◌∷◌,
  ◌++◌, All, Bool-cases, arith,
}
use pevo_pinner.Prelude.Int.{pos}
use pevo_pinner.Prelude.Text.{Text, same, same_iff, has, IsDistinct}
use pevo_pinner.Cid.{validate_cid}
use pevo_pinner.Config.Env.{Env}
use pevo_pinner.Config.Settings.{Config, Flags, ConfigPackage, accepted}
use pevo_pinner.Config.Parse.{parse_config}
use pevo_pinner.Discovery.{DiscoveredItem, SupplementaryFile, QueryResult, run_refreshes}
use pevo_pinner.Discovery.Spec.{is_valid}
use pevo_pinner.Discovery.Snapshot.{cids, run_refreshes-IsClean_start}
use pevo_pinner.AutoPin.Rule.{AutoPinRule, any_matches, matching_items}
use pevo_pinner.AutoPin.Manager.{AutoPinManager}
use pevo_pinner.Runner.{shed}
use pevo_pinner.Runner.Shedding.{by_author, by_author-shed}
use pevo_pinner.Runner.Pool.{Batch, Pool, Reach}
use pevo_pinner.Runner.Pool.Handed.{count_if, items_of, count_if-not, count_if-shed, Reach-in_hand}
use pevo_pinner.Main.{chosen_runner, on_refresh}
use pevo_pinner.Main.Wiring.{chosen_runner_lem}

count_if-by_author :
    (a : Text) (is : List DiscoveredItem) → count_if (λ i. same i.author a) is ≡ by_author a is
unfolding count_if by_author
count_if-by_author a [] = refl
count_if-by_author a (i ∷ is) = ground (arith, count_if-by_author a is)

-- A CID is at most once in a list without duplicates.
count_if-absent :
    (c : Text) (is : List DiscoveredItem)
    → has c (cids is) ≡ false
    → count_if (λ i. same i.cid c) is ≡ 0
unfolding count_if has
count_if-absent c [] h = refl
count_if-absent c (i ∷ is) h = ground (arith, h, count_if-absent c is)

count_if-distinct :
    (c : Text) (is : List DiscoveredItem)
    → IsDistinct (cids is)
    → count_if (λ i. same i.cid c) is ≤ 1
unfolding count_if
count_if-distinct c [] h = omega arith
count_if-distinct c (i ∷ is) (new, h) = elim (Bool-cases (same i.cid c)) [
  | inl e ↦
      let this = (same_iff i.cid c).0 e in
      let absent = count_if-absent c is (rw this at new) in rw e (omega (arith, absent))
  | inr e ↦ rw e (count_if-distinct c is h)
]

module _ (lower : Text → Text) (parse_date : Text → Option ℕ) where
  abbrev is_wanted : List AutoPinRule → DiscoveredItem → Bool
  is_wanted rules i = is_valid i && any_matches lower parse_date rules i

  count_if-matching_items :
      (f : DiscoveredItem → Bool) (rules : List AutoPinRule) (is : List DiscoveredItem)
      → count_if f (matching_items lower parse_date rules is) ≤ count_if f is
  unfolding count_if matching_items
  count_if-matching_items f rules [] = omega arith
  count_if-matching_items f rules (i ∷ is) = ground (arith, count_if-matching_items f rules is)

  unwanted :
      (rules : List AutoPinRule) (is : List DiscoveredItem)
      → All (λ i. is_valid i ≡ true) is
      → count_if (λ i. not (is_wanted rules i)) (matching_items lower parse_date rules is) ≡ 0
  unfolding count_if matching_items
  unwanted rules [] h = refl
  unwanted rules (i ∷ is) (v, h) = ground (arith, v, unwanted rules is h)

  on_refresh_items :
      (m : AutoPinManager) (is batch : List DiscoveredItem)
      → on_refresh lower parse_date m is ≡ some batch
      → matching_items lower parse_date m.rules is ≡ batch
  unfolding on_refresh
  on_refresh_items m is batch h = go (matching_items lower parse_date m.rules is) h
    where
      go :
          (found : List DiscoveredItem)
          → elim found [ [] ↦ none | i ∷ matched ↦ some (i ∷ matched) ] ≡ some batch
          → found ≡ batch
      go [] e = cc
      go (i ∷ matched) e = cc

  All-both :
      (rules : List AutoPinRule) (is : List DiscoveredItem)
      → All (λ i. is_wanted rules i ≡ true) is
      → All (λ i. (validate_cid i.cid ≡ true) × (any_matches lower parse_date rules i ≡ true)) is
  All-both rules [] h = tt
  All-both rules (i ∷ is) (e, h) = ((ground (arith, e), ground (arith, e)), All-both rules is h)

  module _ (pkg : ConfigPackage) (unmarshal_supp : Text → Option (List SupplementaryFile)) where
    -- With a configuration that ParseConfig returns, an empty start, any history of queries, any
    -- rules, and any interleaving of the callers of the runner, the goroutines of a call of Run
    -- that the refresh callback makes hold only items with a valid CID that some rule matches, no
    -- CID twice, and of no author more than the configured cap.
    pub on_refresh_lem :
        (env : Env) (f : Flags) (c : Config) (m : AutoPinManager) (qs : List QueryResult) (p : Pool)
        (front behind : List Batch) (b : Batch)
        → parse_config pkg env f ≡ accepted c
        → on_refresh lower parse_date m
            (run_refreshes unmarshal_supp (record { items = [] }) qs).items
          ≡ some b.items
        → Reach (chosen_runner c) p
        → p.batches ≡ front ++ b ∷ behind
        → All
            (λ i. (validate_cid i.cid ≡ true) × (any_matches lower parse_date m.rules i ≡ true))
            (items_of b.flying)
          × ((x : Text) → count_if (λ i. same i.cid x) (items_of b.flying) ≤ 1)
          × ((cap : ℕ) × (c.auto_pin_author_cap ≡ pos cap)
              × ((a : Text) → by_author a (items_of b.flying) ≤ cap))
    on_refresh_lem env f c m qs p front behind b parsed called reached here =
        let r = chosen_runner c in
        let found = (run_refreshes unmarshal_supp (record { items = [] }) qs).items in
        let matched = on_refresh_items m found b.items called in
        let (distinct, valid) = run_refreshes-IsClean_start unmarshal_supp qs in
        let in_queue : (g : DiscoveredItem → Bool)
            → count_if g (items_of b.flying) ≤ count_if g (shed r b.items).queued =
          λ g. Reach-in_hand g r p front behind b reached here in
        let in_items : (g : DiscoveredItem → Bool)
            → count_if g (items_of b.flying) ≤ count_if g b.items =
          λ g. omega (arith, in_queue g, count_if-shed g r b.items) in
        let bad : DiscoveredItem → Bool = λ i. not (is_wanted m.rules i) in
        let none_bad : count_if bad b.items ≡ 0 = rw (← matched) (unwanted m.rules found valid) in
        let (chosen, conc, cap) = chosen_runner_lem pkg env f c parsed in
        (
          All-both m.rules (items_of b.flying) (
              count_if-not (is_wanted m.rules) (items_of b.flying)
                (omega (arith, in_items bad, none_bad))),
          λ x.
              let once = count_if-distinct x found distinct in
              let fewer : count_if (λ i. same i.cid x) b.items
                  ≤ count_if (λ i. same i.cid x) found =
                rw (← matched) (count_if-matching_items (λ i. same i.cid x) m.rules found) in
              omega (arith, once, fewer, in_items (λ i. same i.cid x)),
          (
            r.author_cap,
            sym cap,
            λ a. omega (
              arith,
              in_queue (λ i. same i.author a),
              count_if-by_author a (items_of b.flying),
              count_if-by_author a (shed r b.items).queued,
              by_author-shed r a b.items,
            ),
          ),
        )
