-- ===== src/Fetch/Fallback.antt =====
-- fetchViaCAR: one gateway that serves the CID is enough, and each that fails is reported.
use pevo_pinner.Prelude.{
  ℕ, ◌≡◌, refl, sym, ap, ◌∙◌, ◌⊎◌, inl, inr, Option, none, List, [], ◌∷◌, ◌++◌, append-nil,
  append_assoc, map, Option-cases,
}
use pevo_pinner.Prelude.Text.{Text}
use pevo_pinner.Fetch.Import.{
  Block, Response, FetchError, PutFaults, fetch_car_from_gateway, ViaCar, gateway_loop,
  fetch_via_car, fetched, all_failed,
}
use pevo_pinner.Fetch.Outcome.{Serves, fetch_car_from_gateway_iff}

abbrev pub gateway_of : Text × FetchError → Text
gateway_of (gw, e) = gw

-- Some gateway of the chain serves the CID.
abbrev pub IsServed : ℕ → (Text → Option Response) → (cid : Text) → List Text → Type 0
IsServed cap get cid [] = ⊥
IsServed cap get cid (gw ∷ gws) = Serves cap get gw cid ⊎ IsServed cap get cid gws

module _ (cap : ℕ) (faults : Text → PutFaults) (get : Text → Option Response)
    (clean : (gw : Text) (i : ℕ) → faults gw i ≡ none) (cid : Text) where
  -- What the loop says of the gateways it has gone through and of those ahead.
  abbrev Decides : List Text → List (Text × FetchError) → ViaCar → Type 0
  Decides gws errs o =
      ((o ≡ fetched) × IsServed cap get cid gws)
      ⊎ ((es : List (Text × FetchError)) × (o ≡ all_failed es)
          × (map gateway_of es ≡ map gateway_of errs ++ gws)
          × (IsServed cap get cid gws → ⊥))

  map-gateway_of :
      (errs : List (Text × FetchError)) (gw : Text) (e : FetchError)
      → map gateway_of (errs ++ (gw, e) ∷ []) ≡ map gateway_of errs ++ gw ∷ []
  map-gateway_of [] gw e = refl
  map-gateway_of ((g, d) ∷ errs) gw e = ap (◌∷◌ g) (map-gateway_of errs gw e)

  decide_later :
      (gw : Text) (gws : List Text) (errs : List (Text × FetchError)) (e : FetchError) (o : ViaCar)
      → (Serves cap get gw cid → ⊥)
      → Decides gws (errs ++ (gw, e) ∷ []) o
      → Decides (gw ∷ gws) errs o
  decide_later gw gws errs e o n (inl (f, s)) = inl (f, inr s)
  decide_later gw gws errs e o n (inr (es, f, k, u)) = inr (
    es,
    f,
    k
        ∙ ap (λ x. x ++ gws) (map-gateway_of errs gw e)
        ∙ append_assoc (map gateway_of errs) (gw ∷ []) gws,
    λ s. elim s [ inl here ↦ n here | inr there ↦ u there ],
  )

  gateway_loop-Decides :
      (gws : List Text) (errs : List (Text × FetchError)) (store : List Block)
      → Decides gws errs (gateway_loop cap faults get cid gws errs store).outcome
  unfolding gateway_loop
  gateway_loop-Decides [] errs store =
      inr (errs, refl, sym (append-nil (map gateway_of errs)), λ s. s)
  gateway_loop-Decides (gw ∷ gws) errs store =
      let verdict = fetch_car_from_gateway_iff cap (faults gw) get gw cid store (clean gw) in
      elim (Option-cases (fetch_car_from_gateway cap (faults gw) get gw cid store).error) [
        | inl ok ↦ rw (ok, gateway_loop) (inl (refl, inl (verdict.0 ok)))
        | inr (e, bad) ↦
            rw (bad, gateway_loop)
              (decide_later gw gws errs e _ (λ s. let k = verdict.1 s in cc)
                (gateway_loop-Decides gws (errs ++ (gw, e) ∷ [])
                  (fetch_car_from_gateway cap (faults gw) get gw cid store).store))
      ]

  -- If no call of PutMany fails, fetchViaCAR over a chain that is not empty either returns nil and
  -- some gateway of the chain serves the CID, or none does and the error names every gateway of the
  -- chain, in order.
  pub fetch_via_car_lem :
      (gw : Text) (gws : List Text) (store : List Block)
      → (((fetch_via_car cap faults get cid (gw ∷ gws) store).outcome ≡ fetched)
          × IsServed cap get cid (gw ∷ gws))
        ⊎ ((es : List (Text × FetchError)) × ((fetch_via_car cap faults get cid
                (gw ∷ gws)
                store).outcome
              ≡ all_failed es)
            × (map gateway_of es ≡ gw ∷ gws)
            × (IsServed cap get cid (gw ∷ gws) → ⊥))
  unfolding fetch_via_car
  fetch_via_car_lem gw gws store = gateway_loop-Decides (gw ∷ gws) [] store
