-- ===== src/Backend.antt =====
-- pinner.go: IPFSBackend, as its operations over a state, with what each implementation keeps to: a
-- text that is no CID is refused at every entry point, and changes nothing.
use pevo_pinner.Prelude.{ℕ, ◌≡◌, not, ◌&&◌, ◌||◌, Bool, false, Option, none, some, if◌then◌else◌}
use pevo_pinner.Prelude.Text.{Text, same}
use pevo_pinner.Cid.{validate_cid}

-- `now` numbers the calls: what is outside of the program may answer each in its own way. A true
-- Boolean is a nil error, and none is an error. No part of the program calls PinnedCIDs; Drain and
-- Close are called when nothing else is.
pub record IpfsBackend : Type 1 where
  pub State : Type 0
  pub pin : (now : ℕ) → Text → State → State × Bool
  pub unpin : (now : ℕ) → Text → State → State × Bool
  pub is_pinned : (now : ℕ) → Text → State → State × Option Bool
  pub pin_refuses :
      (now : ℕ) (c : Text) (s : State) → validate_cid c ≡ false → pin now c s ≡ (s, false)
  pub unpin_refuses :
      (now : ℕ) (c : Text) (s : State) → validate_cid c ≡ false → unpin now c s ≡ (s, false)
  pub is_pinned_refuses :
      (now : ℕ) (c : Text) (s : State) → validate_cid c ≡ false → is_pinned now c s ≡ (s, none)

-- The backend is a set of CIDs: a call that returns nil adds or removes its CID and no other, a call
-- that fails changes no member, and a question about a valid CID is answered by membership.
pub record IsPinSet (b : IpfsBackend) (member : b.State → Text → Bool) : Type 0 where
  pub pinned :
      (now : ℕ) (c x : Text) (s : b.State)
      → member (b.pin now c s).0 x ≡ ((b.pin now c s).1 && same c x || member s x)
  pub unpinned :
      (now : ℕ) (c x : Text) (s : b.State)
      → member (b.unpin now c s).0 x ≡ (not ((b.unpin now c s).1 && same c x) && member s x)
  pub asked :
      (now : ℕ) (c : Text) (s : b.State)
      → b.is_pinned now c s ≡ (s, (if validate_cid c then some (member s c) else none))
