-- ===== src/Server/Pins.antt =====
-- handlePin and handleUnpin over a backend that is a set of CIDs.
use pevo_pinner.Prelude.{
  ℕ, ◌≡◌, refl, inl, inr, Bool, true, false, not, ◌&&◌, ◌||◌, [], ◌∷◌, Bool-cases,
}
use pevo_pinner.Prelude.Text.{Text, same, is_empty, codes}
use pevo_pinner.Cid.{validate_cid}
use pevo_pinner.Backend.{IpfsBackend, IsPinSet}
use pevo_pinner.Node.Guard.{validate_cid-nil}
use pevo_pinner.Server.{Server, Response, fails, write_json, pin_status, handle_pin, handle_unpin}

pub not_empty : (c : Text) → validate_cid c ≡ true → is_empty c ≡ false
not_empty [] v = elim (validate_cid-nil v) [ ]
not_empty (x ∷ c) v = refl

module _ (b : IpfsBackend) (member : b.State → Text → Bool) (set : IsPinSet b member) where
  -- What a handler that changes one CID may have done: refused the CID, failed, or done it, where
  -- `after` says whether a text is a member then.
  pub data Handled (cid : Text) (s : Server b) (verb : Text) (after : Text → Bool)
      : Server b × Response → Type 0 where
    refused : validate_cid cid ≡ false → Handled cid s verb after (s, fails 400)
    failed :
        (now : b.State)
        → validate_cid cid ≡ true
        → ((x : Text) → member now x ≡ member s.backend x)
        → Handled cid s verb after (record s { backend = now }, fails 500)
    finished :
        (now : b.State)
        → validate_cid cid ≡ true
        → ((x : Text) → member now x ≡ after x)
        → Handled cid s verb after (record s { backend = now }, write_json (pin_status verb cid))

  refused_empty : (cid : Text) → is_empty cid ≡ true → validate_cid cid ≡ false
  refused_empty cid e = elim (Bool-cases (validate_cid cid)) [
    | inl v ↦ absurd (cc (e, not_empty cid v))
    | inr v ↦ v
  ]

  -- Over a backend that is a set of CIDs, the pin handler answers 400 to a text that is no CID and
  -- changes nothing, or 500 with the members as they were, or 200 with the CID as a member and no
  -- other change.
  pub handle_pin_lem :
      (call : ℕ) (cid : Text) (s : Server b)
      → Handled cid s
          (codes "pinned")
          (λ x. same cid x || member s.backend x)
          (handle_pin b call cid s)
  unfolding handle_pin
  handle_pin_lem call cid s = elim (Bool-cases (validate_cid cid)) [
    | inr bad ↦ elim (Bool-cases (is_empty cid)) [
      | inl e ↦ rw (e, handle_pin) (refused bad)
      | inr e ↦ rw (e, bad, handle_pin) (refused bad)
    ]
    | inl good ↦ elim (Bool-cases (b.pin call cid s.backend).1) [
      | inl done ↦
          rw (not_empty cid good, good, done, handle_pin)
            (finished (b.pin call cid s.backend).0 good
              (λ x. rw done at (set.pinned call cid x s.backend)))
      | inr done ↦
          rw (not_empty cid good, good, done, handle_pin)
            (failed (b.pin call cid s.backend).0 good
              (λ x. rw done at (set.pinned call cid x s.backend)))
    ]
  ]

  -- The unpin handler over a set of CIDs: refused, failed with no member changed, or the CID is gone.
  pub handle_unpin_lem :
      (call : ℕ) (cid : Text) (s : Server b)
      → Handled cid s
          (codes "unpinned")
          (λ x. not (same cid x) && member s.backend x)
          (handle_unpin b call cid s)
  unfolding handle_unpin
  handle_unpin_lem call cid s = elim (Bool-cases (validate_cid cid)) [
    | inr bad ↦ elim (Bool-cases (is_empty cid)) [
      | inl e ↦ rw (e, handle_unpin) (refused bad)
      | inr e ↦ rw (e, bad, handle_unpin) (refused bad)
    ]
    | inl good ↦ elim (Bool-cases (b.unpin call cid s.backend).1) [
      | inl done ↦
          rw (not_empty cid good, good, done, handle_unpin)
            (finished (b.unpin call cid s.backend).0 good
              (λ x. rw done at (set.unpinned call cid x s.backend)))
      | inr done ↦
          rw (not_empty cid good, good, done, handle_unpin)
            (failed (b.unpin call cid s.backend).0 good
              (λ x. rw done at (set.unpinned call cid x s.backend)))
    ]
  ]
