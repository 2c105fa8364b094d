-- ===== src/Discovery/Snapshot.antt =====
-- discovery.go: what the in-memory snapshot holds, whatever the database answers.
use pevo_pinner.Cid.{validate_cid}
use pevo_pinner.Prelude.{
  ◌&&◌, ◌||◌, ◌≡◌, refl, ◌∙◌, Bool, true, false, Option, List, [], ◌∷◌, map, keep, All, Bool-cases,
  inl, inr, arith,
}
use pevo_pinner.Prelude.Text.{Text, has, same_iff, same_refl, IsDistinct}
use pevo_pinner.Discovery.{
  DiscoveredItem, SupplementaryFile, ScannedRow, QueryResult, query_error, rows, Discovery, refresh,
  run_refreshes,
}
use pevo_pinner.Discovery.Spec.{is_valid, all_candidates, firsts}
use pevo_pinner.Discovery.Refinement.{refresh_lem}

abbrev pub cids : List DiscoveredItem → List Text
cids = map (λ i. i.cid)

-- No CID twice, and each of them valid.
abbrev pub IsClean : List DiscoveredItem → Type 0
IsClean is = IsDistinct (cids is) × All (λ i. is_valid i ≡ true) is

-- A CID is stored when it is known already or an item has it.
has-firsts :
    (c : Text) (seen : List Text) (is : List DiscoveredItem)
    → has c seen ≡ true
    → has c (cids (firsts seen is)) ≡ false
unfolding has firsts
has-firsts c seen [] h = refl
has-firsts c seen (i ∷ is) h = elim (Bool-cases (has i.cid seen)) [
  | inl known ↦ rw (known, firsts) (has-firsts c seen is h)
  | inr new ↦
      rw (new, firsts) (ground (arith, new, h, same_iff i.cid c, has-firsts c (i.cid ∷ seen) is))
]

firsts-IsDistinct :
    (seen : List Text) (is : List DiscoveredItem) → IsDistinct (cids (firsts seen is))
unfolding has firsts
firsts-IsDistinct seen [] = tt
firsts-IsDistinct seen (i ∷ is) = elim (Bool-cases (has i.cid seen)) [
  | inl known ↦ rw (known, firsts) (firsts-IsDistinct seen is)
  | inr new ↦
      rw (new, firsts)
        (
          has-firsts i.cid (i.cid ∷ seen) is (rw (same_refl i.cid) refl),
          firsts-IsDistinct (i.cid ∷ seen) is,
        )
]

firsts-All {κ} :
    (P : DiscoveredItem → Type κ) (seen : List Text) (is : List DiscoveredItem)
    → All P is
    → All P (firsts seen is)
unfolding firsts
firsts-All P seen [] h = tt
firsts-All P seen (i ∷ is) (p, h) = elim (Bool-cases (has i.cid seen)) [
  | inl known ↦ rw (known, firsts) (firsts-All P seen is h)
  | inr new ↦ rw (new, firsts) (p, firsts-All P (i.cid ∷ seen) is h)
]

keep-All :
    (p : DiscoveredItem → Bool) (is : List DiscoveredItem) → All (λ i. p i ≡ true) (keep p is)
keep-All p [] = tt
keep-All p (i ∷ is) = ground (arith, keep-All p is)

has-cids-firsts :
    (c : Text) (seen : List Text) (is : List DiscoveredItem)
    → (has c seen || has c (cids (firsts seen is))) ≡ (has c seen || has c (cids is))
unfolding has firsts
has-cids-firsts c seen [] = refl
has-cids-firsts c seen (i ∷ is) = elim (Bool-cases (has i.cid seen)) [
  | inl known ↦
      rw (known, firsts) (ground (arith, known, same_iff i.cid c, has-cids-firsts c seen is))
  | inr new ↦ rw (new, firsts) (ground (arith, has-cids-firsts c (i.cid ∷ seen) is))
]

has-cids-keep :
    (c : Text) (is : List DiscoveredItem)
    → has c (cids (keep is_valid is)) ≡ (validate_cid c && has c (cids is))
unfolding has
has-cids-keep c [] = ground arith
has-cids-keep c (i ∷ is) = ground (arith, same_iff i.cid c, has-cids-keep c is)

module _ (u : Text → Option (List SupplementaryFile)) where
  -- After a refresh that succeeds, a CID is in the snapshot exactly when it is valid and some
  -- scanned row mentions it.
  pub has-refresh :
      (c : Text) (d : Discovery) (rs : List (Option ScannedRow))
      → has c (cids (refresh u d (rows rs false)).0.items)
        ≡ (validate_cid c && has c (cids (all_candidates u rs)))
  unfolding has
  has-refresh c d rs = rw (refresh_lem u d rs) (
      has-cids-firsts c [] (keep is_valid (all_candidates u rs))
      ∙ has-cids-keep c (all_candidates u rs))

  -- A refresh, whatever its query gives, keeps the snapshot free of duplicate and invalid CIDs.
  pub refresh-IsClean :
      (d : Discovery) (q : QueryResult) → IsClean d.items → IsClean (refresh u d q).0.items
  refresh-IsClean d query_error h = unfold refresh in h
  refresh-IsClean d (rows rs true) h = unfold refresh in h
  refresh-IsClean d (rows rs false) h =
      rw (refresh_lem u d rs)
        (firsts-IsDistinct [] _, firsts-All _ [] _ (keep-All is_valid (all_candidates u rs)))

  run_refreshes-IsClean :
      (d : Discovery) (qs : List QueryResult)
      → IsClean d.items
      → IsClean (run_refreshes u d qs).items
  unfolding run_refreshes
  run_refreshes-IsClean d [] h = h
  run_refreshes-IsClean d (q ∷ qs) h =
      run_refreshes-IsClean (refresh u d q).0 qs (refresh-IsClean d q h)

  abbrev is_complete : QueryResult → Bool
  is_complete (rows rs false) = true
  is_complete _ = false

  refresh_failed : (d : Discovery) (q : QueryResult) → is_complete q ≡ false → (refresh u d q).0 ≡ d
  unfolding refresh
  refresh_failed d query_error h = refl
  refresh_failed d (rows rs true) h = refl
  refresh_failed d (rows rs false) h = cc

  -- The snapshot after a history of queries: that of the last complete one, or the first snapshot.
  abbrev pub last_complete : List DiscoveredItem → List QueryResult → List DiscoveredItem
  last_complete is [] = is
  last_complete is (rows rs false ∷ qs) =
      last_complete (firsts [] (keep is_valid (all_candidates u rs))) qs
  last_complete is (q ∷ qs) = last_complete is qs

  -- Whatever a history of queries answers, the snapshot is that of the last query that succeeded
  -- and could be read to its end, as the first items of its valid CIDs, and the first snapshot if
  -- there is none.
  pub run_refreshes_lem :
      (d : Discovery) (qs : List QueryResult)
      → (run_refreshes u d qs).items ≡ last_complete d.items qs
  unfolding run_refreshes
  run_refreshes_lem d [] = refl
  run_refreshes_lem d (query_error ∷ qs) =
      rw (refresh_failed d query_error refl, run_refreshes) (run_refreshes_lem d qs)
  run_refreshes_lem d (rows rs true ∷ qs) =
      rw (refresh_failed d (rows rs true) refl, run_refreshes) (run_refreshes_lem d qs)
  run_refreshes_lem d (rows rs false ∷ qs) =
      rw (refresh_lem u d rs, run_refreshes)
        (run_refreshes_lem (record { items = firsts [] (keep is_valid (all_candidates u rs)) }) qs)

  -- From an empty start, whatever a history of queries answers, the snapshot holds no CID twice and
  -- no invalid CID.
  pub run_refreshes-IsClean_start :
      (qs : List QueryResult) → IsClean (run_refreshes u (record { items = [] }) qs).items
  run_refreshes-IsClean_start qs = run_refreshes-IsClean (record { items = [] }) qs (tt, tt)
