-- ===== src/Server/Status.antt =====
-- handleStatus and handlePapers over a backend that is a set of CIDs.
use pevo_pinner.Prelude.{
  ℕ, suc, ◌+◌, ◌-◌, ◌*◌, ◌/◌, ◌%◌, ◌≤◌, ◌<◌, ◌≡◌, refl, ap, ◌∙◌, inl, inr, Bool, ◌&&◌, none, some,
  List, [], ◌∷◌, map, length, keep, Bool-cases, arith,
}
use native.Mathlib.Nat.{mod-lt, zero-lt-suc, zero-add, div-add-mod, mul-suc}
use pevo_pinner.Prelude.Int.{ℤ, pos}
use pevo_pinner.Prelude.Text.{Text}
use pevo_pinner.Cid.{validate_cid}
use pevo_pinner.Discovery.{DiscoveredItem}
use pevo_pinner.Backend.{IpfsBackend, IsPinSet}
use pevo_pinner.Server.Format.{format_duration}
use pevo_pinner.Server.{
  StatusResponse, papers, report, write_json, Server, or_false, paper_of, paper_loop, handle_papers,
  count_loop, remaining, handle_status,
}

remaining-suc :
    (r : ℤ) (n el : ℕ) → r ≡ pos (suc n) → remaining r el ≡ some (pos (suc n - el % suc n))
unfolding remaining
remaining-suc r n el e = rw e refl

-- With a refresh interval of zero, the status handler panics.
pub handle_status-none :
    (b : IpfsBackend) (call now : ℕ) (s : Server b)
    → s.refresh ≡ pos 0
    → handle_status b call now s ≡ none
unfolding handle_status remaining
handle_status-none b call now s z = rw (z, handle_status) refl

module _ (b : IpfsBackend) (member : b.State → Text → Bool) (set : IsPinSet b member) where
  -- The CID is valid and in the set.
  abbrev pub is_listed : b.State → DiscoveredItem → Bool
  is_listed s item = validate_cid item.cid && member s item.cid

  asked_lem :
      (call : ℕ) (item : DiscoveredItem) (s : b.State)
      → ((b.is_pinned call item.cid s).0 ≡ s)
        × (or_false (b.is_pinned call item.cid s).1 ≡ is_listed s item)
  asked_lem call item s =
      rw (set.asked call item.cid s) (elim (Bool-cases (validate_cid item.cid)) [
        | inl good ↦ (refl, rw good refl)
        | inr bad ↦ (refl, rw bad refl)
      ])

  paper_loop_lem :
      (call : ℕ) (items : List DiscoveredItem) (s : b.State)
      → paper_loop b call items s ≡ (s, map (λ item. paper_of item (is_listed s item)) items)
  unfolding paper_loop
  paper_loop_lem call [] s = refl
  paper_loop_lem call (item ∷ items) s =
      let (same_state, listed) = asked_lem call item s in
      rw same_state (rw (paper_loop_lem (suc call) items s) (rw listed refl))

  pub count_loop_lem :
      (call : ℕ) (items : List DiscoveredItem) (n : ℕ) (s : b.State)
      → count_loop b call items n s ≡ (s, n + length (keep (is_listed s) items))
  unfolding count_loop
  count_loop_lem call [] n s = ap (λ m. (s, m)) (omega arith)
  count_loop_lem call (item ∷ items) n s =
      let (same_state, listed) = asked_lem call item s in
      rw same_state (
        rw listed (elim (Bool-cases (is_listed s item)) [
          | inl e ↦
              rw e (count_loop_lem (suc call) items (suc n) s ∙ ap (λ m. (s, m)) (omega arith))
          | inr e ↦ rw e (count_loop_lem (suc call) items n s)
        ]))

  -- The report for a whole number of nanoseconds to the next refresh.
  abbrev pub report_of : Server b → (left : ℕ) → StatusResponse
  report_of s left = record {
    total_discovered = length s.discovery.items;
    pinned_count = length (keep (is_listed s.backend) s.discovery.items);
    next_refresh = format_duration (pos left);
    mode = s.mode;
    refresh_interval = s.refresh;
    auto_pin_concurrency = s.auto_pin_concurrency;
    auto_pin_author_cap = s.auto_pin_author_cap;
  }

  -- Over a backend that is a set of CIDs and with a positive refresh interval, the status handler
  -- changes nothing and reports the number of items, the number of those whose CID is valid and
  -- pinned, and, in the form of formatDuration, a time that is positive and at most the interval
  -- and that, with the time since the start, makes up a whole number of intervals.
  pub handle_status_lem :
      (call now n : ℕ) (s : Server b)
      → s.refresh ≡ pos (suc n)
      → (left : ℕ) × (0 < left)
        × (left ≤ suc n)
        × ((refreshes : ℕ) × (now - s.start_time + left ≡ suc n * refreshes))
        × (handle_status b call now s ≡ some (s, write_json (report (report_of s left))))
  unfolding handle_status
  handle_status_lem call now n s e =
      let counted =
        count_loop_lem call s.discovery.items 0 s.backend
        ∙ ap (λ m. (s.backend, m))
            (zero-add (length (keep (is_listed s.backend) s.discovery.items))) in
      let below : (now - s.start_time) % suc n < suc n =
        mod-lt (now - s.start_time) (zero-lt-suc n) in
      (
        suc n - (now - s.start_time) % suc n,
        omega (arith, below),
        omega (arith, below),
        (
          suc ((now - s.start_time) / suc n),
          omega (
            arith,
            below,
            div-add-mod (now - s.start_time) (suc n),
            mul-suc (suc n) ((now - s.start_time) / suc n),
          ),
        ),
        rw (remaining-suc s.refresh n (now - s.start_time) e, counted, handle_status) refl,
      )

  -- The papers are the items of the snapshot, each with its membership, and nothing changes.
  pub handle_papers_lem :
      (call : ℕ) (s : Server b)
      → handle_papers b call s ≡ (
        s,
        write_json
            (papers (map (λ item. paper_of item (is_listed s.backend item)) s.discovery.items)),
      )
  unfolding handle_papers
  handle_papers_lem call s = rw (paper_loop_lem call s.discovery.items s.backend) refl
