-- ===== src/Pinata/Interface.antt =====
-- The Pinata backend has the interface: a text that is no CID sends no request.
use pevo_pinner.Prelude.{ℕ, ◌≡◌, false, none}
use pevo_pinner.Prelude.Text.{Text}
use pevo_pinner.Cid.{validate_cid}
use pevo_pinner.Backend.{IpfsBackend}
use pevo_pinner.Pinata.{PinataBackend, PinataOutside, pin, unpin, is_pinned}

module _ {S : Type 0} (out : PinataOutside S) (p : PinataBackend) where
  pub pinata_pin_refuses :
      (now : ℕ) (c : Text) (s : S) → validate_cid c ≡ false → pin out p c s ≡ (s, false)
  unfolding pin
  pinata_pin_refuses now c s bad = rw (bad, pin)

  pub pinata_unpin_refuses :
      (now : ℕ) (c : Text) (s : S) → validate_cid c ≡ false → unpin out p c s ≡ (s, false)
  unfolding unpin
  pinata_unpin_refuses now c s bad = rw (bad, unpin)

  pub pinata_is_pinned_refuses :
      (now : ℕ) (c : Text) (s : S) → validate_cid c ≡ false → is_pinned out p c s ≡ (s, none)
  unfolding is_pinned
  pinata_is_pinned_refuses now c s bad = rw (bad, is_pinned)

  abbrev pub pinata_backend : IpfsBackend
  pinata_backend = record {
    State = S;
    pin = λ now c s. pin out p c s;
    unpin = λ now c s. unpin out p c s;
    is_pinned = λ now c s. is_pinned out p c s;
    pin_refuses = pinata_pin_refuses;
    unpin_refuses = pinata_unpin_refuses;
    is_pinned_refuses = pinata_is_pinned_refuses;
  }
