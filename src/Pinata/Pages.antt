-- ===== src/Pinata/Pages.antt =====
-- PinnedCIDs against a remote side that lists in pages.
use pevo_pinner.Prelude.{
  ℕ, zero, suc, ◌+◌, ◌*◌, ◌≤◌, ◌<◌, ◌≡◌, refl, ap, ◌∙◌, inl, inr, some, List, [], ◌∷◌, ◌++◌,
  append_assoc, length, take, drop, ltb, Bool-cases, arith, take-append-drop, drop-drop,
}
use native.Mathlib.Nat.{suc-mul}
use pevo_pinner.Prelude.Text.{Text}
use pevo_pinner.Pinata.{PinataBackend, PinataOutside, page, page_loop, pinned_cids}

module _ {ℓ} {A : Type ℓ} where
  -- A page that is not full is the whole rest.
  take_short : (n : ℕ) (xs : List A) → length (take n xs) < n → take n xs ≡ xs
  take_short zero xs h = absurd (omega (arith, h))
  take_short (suc n) [] h = refl
  take_short (suc n) (x ∷ xs) h = ap (◌∷◌ x) (take_short n xs (omega (arith, h)))

  -- A full page shortens the rest by its size.
  length-drop_full :
      (n : ℕ) (xs : List A) → n ≤ length (take n xs) → length (drop n xs) + n ≡ length xs
  length-drop_full zero xs h = omega arith
  length-drop_full (suc n) [] h = absurd (omega (arith, h))
  length-drop_full (suc n) (x ∷ xs) h = omega (arith, length-drop_full n xs (omega (arith, h)))

-- The remote side answers every request for a page with that part of one list of pins.
abbrev pub Lists : {S : Type 0} → PinataOutside S → PinataBackend → List Text → Type 0
Lists {S} out p cids =
    (size offset : ℕ) (s : S) → (page out p size offset s).1 ≡ some (take size (drop offset cids))

module _ {S : Type 0} (out : PinataOutside S) (p : PinataBackend) (cids : List Text)
    (lists : Lists out p cids) where
  page_loop_lem :
      (fuel size offset : ℕ) (acc : List Text) (s : S)
      → 0 < size
      → length (drop offset cids) < fuel * size
      → (s' : S) × (page_loop out p fuel size offset acc s
          ≡ some (s', some (acc ++ drop offset cids)))
  unfolding page_loop
  page_loop_lem zero size offset acc s h k = absurd (omega (arith, k))
  page_loop_lem (suc fuel) size offset acc s h k =
      let rows = take size (drop offset cids) in
      let room : (m : ℕ) → m + size ≡ length (drop offset cids) → m < fuel * size =
        λ m e. omega (arith, e, k, suc-mul fuel size) in
      elim (Bool-cases (ltb (length rows) size)) [
        | inl short ↦
            let e : rows ≡ drop offset cids =
              take_short size (drop offset cids) (ground (arith, short)) in
            (
              (page out p size offset s).0,
              rw (lists size offset s, page_loop)
                  (rw (short, page_loop)
                    (ap (λ r. some ((page out p size offset s).0, some (acc ++ r))) e)),
            )
        | inr full ↦
            let left_over = length-drop_full size (drop offset cids) (ground (arith, full)) in
            let later = drop-drop offset size cids in
            let (s', e) =
              page_loop_lem fuel size (offset + size) (acc ++ rows) (page out p size offset s).0 h
                (rw (← later) (room (length (drop size (drop offset cids))) left_over)) in
            (
              s',
              rw (lists size offset s, page_loop)
                  (rw (full, page_loop)
                    (e
                      ∙ ap (λ r. some (s', some r))
                          (append_assoc acc rows (drop (offset + size) cids)
                            ∙ ap (◌++◌ acc)
                                (rw (← later) (take-append-drop size (drop offset cids)))))),
            )
      ]

  -- If the remote side answers each request for a page with that part of one list of pins,
  -- PinnedCIDs ends, within one request more than there are full pages, and returns the whole list
  -- in order.
  pub pinned_cids_lem :
      (s : S) (fuel : ℕ)
      → length cids < fuel * 1000
      → (s' : S) × (pinned_cids out p fuel s ≡ some (s', some cids))
  unfolding pinned_cids
  pinned_cids_lem s fuel h = page_loop_lem fuel 1000 0 [] s (omega arith) h
