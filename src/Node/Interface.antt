-- ===== src/Node/Interface.antt =====
-- The embedded node as a backend: its methods have the interface, and it is a set of CIDs.
use pevo_pinner.Prelude.{
  ℕ, ◌≡◌, refl, ap, ◌∙◌, inl, inr, not, ◌&&◌, ◌||◌, Bool, true, false, Option, none, some,
  Bool-cases, arith,
}
use pevo_pinner.Prelude.Text.{Text, same, has}
use pevo_pinner.Cid.{validate_cid}
use pevo_pinner.AtomicFile.{Faults}
use pevo_pinner.Backend.{IpfsBackend, IsPinSet}
use pevo_pinner.Node.{EmbeddedNode, Outside, PinError, pin, unpin, is_pinned}
use pevo_pinner.Node.Pins.{Settles, is_ready, pin-Settles, has-unpin}

abbrev pub is_nil : Option PinError → Bool
is_nil none = true
is_nil (some e) = false

module _ (world : ℕ → Outside) (faults : ℕ → Faults) where
  abbrev pub embedded_pin : ℕ → Text → EmbeddedNode → EmbeddedNode × Bool
  embedded_pin now c n = let r = pin (world now) (faults now) c n in (r.0, is_nil r.1)

  abbrev pub embedded_unpin : ℕ → Text → EmbeddedNode → EmbeddedNode × Bool
  embedded_unpin now c n = unpin (world now) (faults now) c n

  abbrev pub embedded_is_pinned : ℕ → Text → EmbeddedNode → EmbeddedNode × Option Bool
  embedded_is_pinned now c n = (n, is_pinned c n)

  pub embedded_pin_refuses :
      (now : ℕ) (c : Text) (n : EmbeddedNode)
      → validate_cid c ≡ false
      → embedded_pin now c n ≡ (n, false)
  unfolding pin
  embedded_pin_refuses now c n bad = elim (Bool-cases n.done) [
    | inl down ↦ simp (down, pin) refl
    | inr up ↦ simp (up, bad, pin) refl
  ]

  pub embedded_unpin_refuses :
      (now : ℕ) (c : Text) (n : EmbeddedNode)
      → validate_cid c ≡ false
      → embedded_unpin now c n ≡ (n, false)
  unfolding unpin
  embedded_unpin_refuses now c n bad = rw (bad, unpin)

  pub embedded_is_pinned_refuses :
      (now : ℕ) (c : Text) (n : EmbeddedNode)
      → validate_cid c ≡ false
      → embedded_is_pinned now c n ≡ (n, none)
  unfolding is_pinned
  embedded_is_pinned_refuses now c n bad = rw bad refl

  abbrev pub embedded_backend : IpfsBackend
  embedded_backend = record {
    State = EmbeddedNode;
    pin = embedded_pin;
    unpin = embedded_unpin;
    is_pinned = embedded_is_pinned;
    pin_refuses = embedded_pin_refuses;
    unpin_refuses = embedded_unpin_refuses;
    is_pinned_refuses = embedded_is_pinned_refuses;
  }

  pin_pinned :
      (c x : Text) (n : EmbeddedNode) (ready : Bool) (r : EmbeddedNode × Option PinError)
      (o : Outside)
      → Settles o c n ready r
      → has x r.0.pins ≡ (is_nil r.1 && same c x || has x n.pins)
  pin_pinned c x n ready (m, none) o (e, h) = h x
  pin_pinned c x n ready (m, some _) o (e, h, g) = ap (has x) h

  unpin_nil : (now : ℕ) (c : Text) (n : EmbeddedNode) → validate_cid c ≡ (embedded_unpin now c n).1
  unfolding unpin
  unpin_nil now c n = ground arith

  -- The embedded node, whatever the world answers and whatever writes fail, is a set of CIDs: Pin
  -- and Unpin add and remove their CID and no other if they return nil and change no pin if they do
  -- not, and IsPinned is an error for an invalid CID and else says whether the CID is pinned, and
  -- changes nothing.
  pub embedded_backend-IsPinSet : IsPinSet embedded_backend (λ n x. has x n.pins)
  unfolding is_pinned
  embedded_backend-IsPinSet = record {
    pinned = λ now c x n.
        pin_pinned c x n (is_ready (world now) c n) (pin (world now) (faults now) c n) (world now)
          (pin-Settles (world now) (faults now) c n);
    unpinned = λ now c x n.
        has-unpin (world now) (faults now) c x n
        ∙ ap (λ b. not (b && same c x) && has x n.pins) (unpin_nil now c n);
    asked = λ now c n. refl;
  }
