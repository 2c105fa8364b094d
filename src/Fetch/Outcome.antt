-- ===== src/Fetch/Outcome.antt =====
-- fetchCARFromGateway and fetchViaCAR as a whole: when they return nil, and what is stored.
use pevo_pinner.Prelude.{
  ℕ, ◌≡◌, refl, sym, ◌↔◌, inl, inr, true, Option, none, some, List, [], ◌++◌, append-nil, ◌==◌,
  arith, Bool-cases, Option-cases,
}
use pevo_pinner.Prelude.Text.{Text, codes}
use pevo_pinner.Fetch.Url.{trim_right_slashes}
use pevo_pinner.Fetch.Import.{Block, Response, PutFaults, Import, fetch_car_from_gateway}
use pevo_pinner.Fetch.Laws.{blocks_of, under_cap, Extends, import_loop-Extends}
use pevo_pinner.Fetch.Completion.{IsWhole, import_loop_sound, import_loop_complete}

abbrev pub car_url : (gw cid : Text) → Text
car_url gw cid = trim_right_slashes gw ++ (codes "/ipfs/" ++ cid)

-- The gateway answers with status 200, a CAR header and a whole stream.
abbrev pub Serves : ℕ → (Text → Option Response) → (gw cid : Text) → Type 0
Serves cap get gw cid =
    (r : Response) × (get (car_url gw cid) ≡ some r)
    × (r.status_code ≡ 200)
    × (r.has_header ≡ true)
    × IsWhole cap r

abbrev start_import : List Block → Import
start_import store = record { store = store; batch = []; imported = 0; puts = 0 }

module _ (cap : ℕ) (faults : PutFaults) (get : Text → Option Response) (gw cid : Text) where
  -- Whatever calls of PutMany fail, if the import from a gateway returns nil, the gateway answered
  -- with status 200 and a whole stream under the cap, and the block store has all its blocks
  -- appended, in order.
  pub fetch_car_from_gateway_sound :
      (store : List Block)
      → (fetch_car_from_gateway cap faults get gw cid store).error ≡ none
      → (r : Response) × (get (car_url gw cid) ≡ some r)
        × (r.status_code ≡ 200)
        × (r.has_header ≡ true)
        × IsWhole cap r
        × ((fetch_car_from_gateway cap faults get gw cid store).store
            ≡ store ++ blocks_of r.sections)
  unfolding fetch_car_from_gateway
  fetch_car_from_gateway_sound store = elim (Option-cases (get (car_url gw cid))) [
    | inl e ↦ rw (e, fetch_car_from_gateway) (λ h. cc)
    | inr (r, e) ↦ elim (Bool-cases (r.status_code == 200)) [
      | inr bad ↦ rw (e, fetch_car_from_gateway) (rw bad (λ h. cc))
      | inl good ↦ elim (Bool-cases r.has_header) [
        | inr bare ↦ rw (e, fetch_car_from_gateway) (simp (good, bare) (λ h. cc))
        | inl header ↦
            rw (e, fetch_car_from_gateway)
              (simp (good, header)
                (λ h.
                  let (all, f, eof, i, k) =
                    import_loop_sound cap faults r r.sections (start_import store) h in
                  (r, refl, ground (arith, good), header, (all, f, eof, omega (arith, i)), k)))
      ]
    ]
  ]

  -- Whatever fails, the import from a gateway that answers appends to the block store a first part
  -- of the blocks that come before the first one over the cap, in order, and nothing else.
  pub fetch_car_from_gateway-Extends :
      (store : List Block) (r : Response)
      → get (car_url gw cid) ≡ some r
      → Extends store
          (fetch_car_from_gateway cap faults get gw cid store).store
          (blocks_of (under_cap cap r.sections))
  unfolding fetch_car_from_gateway
  fetch_car_from_gateway-Extends store r e =
      let nothing : Extends store store (blocks_of (under_cap cap r.sections)) =
        ([], blocks_of (under_cap cap r.sections), sym (append-nil store), refl) in
      elim (Bool-cases (r.status_code == 200)) [
        | inr bad ↦ rw (e, fetch_car_from_gateway) (rw bad nothing)
        | inl good ↦ elim (Bool-cases r.has_header) [
          | inr bare ↦ rw (e, fetch_car_from_gateway) (simp (good, bare) nothing)
          | inl header ↦
              rw (e, fetch_car_from_gateway)
                (simp (good, header)
                  (import_loop-Extends cap faults r r.sections (start_import store)))
        ]
      ]

  -- If no call of PutMany fails, the import from a gateway returns nil exactly when the gateway
  -- answers with status 200, a CAR header, and a stream of at least one block that ends with EOF
  -- and never counts more than the cap.
  pub fetch_car_from_gateway_iff :
      (store : List Block)
      → ((i : ℕ) → faults i ≡ none)
      → ((fetch_car_from_gateway cap faults get gw cid store).error ≡ none) ↔ Serves cap get gw cid
  unfolding fetch_car_from_gateway
  fetch_car_from_gateway_iff store clean = (
    λ h. let (r, e, s, d, w, k) = fetch_car_from_gateway_sound store h in (r, e, s, d, w),
    λ (r, e, s, d, (all, f, eof, i)).
        rw (e, fetch_car_from_gateway)
          (simp (s, d)
            (import_loop_complete cap faults clean r r.sections (start_import store) all f eof
              (omega (arith, i)))),
  )
