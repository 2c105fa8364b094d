-- ===== src/Node/PeerKey.antt =====
-- ipfsnode_libp2p.go: loadOrCreatePeerKey, and the address of the bootstrap peer. The key material is
-- that of package crypto; a key is the text that UnmarshalPrivateKey makes of its encoding.
use pevo_pinner.Prelude.{
  ℕ, Bool, true, false, Option, none, some, take, ◌≡◌, refl, ap, ◌∙◌, inl, inr, if◌then◌else◌,
  Option-cases,
}
use pevo_pinner.Prelude.Text.{Text, same_refl}
use pevo_pinner.AtomicFile.{Fs, update}

-- What the code takes from package crypto; none is an error.
pub record Crypto : Type 0 where
  pub unmarshal_private_key : Text → Option Text
  pub marshal_private_key : Text → Option Text

-- A call of os.WriteFile fails before the file is truncated, or after the first `written` bytes.
pub data WriteFault : Type 0 where
  no_fault : WriteFault
  not_opened : WriteFault
  cut_short : (written : ℕ) → WriteFault

abbrev pub write_file : WriteFault → Fs → Text → Text → Fs × Bool
write_file no_fault fs path bytes = (update fs path (some bytes), true)
write_file not_opened fs path bytes = (fs, false)
write_file (cut_short n) fs path bytes = (update fs path (some (take n bytes)), false)

module _ (crypto : Crypto) where
  -- `read_fails` is a read error other than a missing file, `generated` is GenerateEd25519Key.
  unfoldable pub load_or_create_peer_key :
      WriteFault
      → (read_fails : Bool) → (generated : Option Text) → (path : Text) → Fs
      → Fs × Option Text
  load_or_create_peer_key f read_fails generated path fs =
      if read_fails then (fs, none) else elim (fs path) [
        | some bytes ↦ (fs, crypto.unmarshal_private_key bytes)
        | none ↦ elim generated [
          | none ↦ (fs, none)
          | some priv ↦ elim (crypto.marshal_private_key priv) [
            | none ↦ (fs, none)
            | some out ↦ let w = write_file f fs path out in (w.0, if w.1 then some priv else none)
          ]
        ]
      ]

  reads :
      (g : WriteFault) (newer : Option Text) (path bytes : Text) (fs : Fs)
      → fs path ≡ some bytes
      → load_or_create_peer_key g false newer path fs ≡ (fs, crypto.unmarshal_private_key bytes)
  unfolding load_or_create_peer_key
  reads g newer path bytes fs e = rw (e, load_or_create_peer_key) refl

  -- What a call that returns a key has left in the file.
  abbrev Stores : (path k : Text) → Fs × Option Text → Type 0
  Stores path k r =
      (bytes : Text) × (r.0 path ≡ some bytes) × (crypto.unmarshal_private_key bytes ≡ some k)

  module _
      (round : (a bytes : Text)
        → crypto.marshal_private_key a ≡ some bytes
        → crypto.unmarshal_private_key bytes ≡ some a) where
    written :
        (f : WriteFault) (priv path out k : Text) (fs : Fs)
        → crypto.marshal_private_key priv ≡ some out
        → (if (write_file f fs path out).1 then some priv else none) ≡ some k
        → Stores path k ((write_file f fs path out).0, some k)
    written no_fault priv path out k fs m h =
        let e : priv ≡ k = cc in (out, rw (same_refl path) refl, round priv out m ∙ ap some e)
    written not_opened priv path out k fs m h = cc
    written (cut_short n) priv path out k fs m h = cc

    stores :
        (f : WriteFault) (new : Option Text) (path k : Text) (fs : Fs)
        → (load_or_create_peer_key f false new path fs).1 ≡ some k
        → Stores path k (load_or_create_peer_key f false new path fs)
    unfolding load_or_create_peer_key
    stores f new path k fs h = elim (Option-cases (fs path)) [
      | inr (bytes, e) ↦
          rw (e, load_or_create_peer_key) (bytes, e, rw (e, load_or_create_peer_key) at h)
      | inl e ↦ elim (Option-cases new) [
        | inl n ↦ let g = rw (e, n, load_or_create_peer_key) at h in cc
        | inr (priv, n) ↦ elim (Option-cases (crypto.marshal_private_key priv)) [
          | inl m ↦
              let g =
                rw (m, load_or_create_peer_key) at (rw (e, n, load_or_create_peer_key) at h) in
              cc
          | inr (out, m) ↦
              let g =
                rw (m, load_or_create_peer_key) at (rw (e, n, load_or_create_peer_key) at h) in
              rw (e, n, load_or_create_peer_key)
                (rw (m, load_or_create_peer_key) (written f priv path out k fs m g))
        ]
      ]
    ]

    -- If encoded keys decode to themselves and a start gets a key, read or generated, then a later
    -- start on the same files gets the same key and changes no file, whatever it would generate.
    pub load_or_create_peer_key_lem :
        (f g : WriteFault) (new newer : Option Text) (path k : Text) (fs : Fs)
        → (load_or_create_peer_key f false new path fs).1 ≡ some k
        → load_or_create_peer_key g false newer path (load_or_create_peer_key f false new path fs).0
          ≡ ((load_or_create_peer_key f false new path fs).0, some k)
    load_or_create_peer_key_lem f g new newer path k fs h =
        let (bytes, held, key) = stores f new path k fs h in
        let fs' = (load_or_create_peer_key f false new path fs).0 in
        reads g newer path bytes fs' held ∙ ap (λ o. (fs', o)) key

  cut_file :
      (new path out : Text) (n : ℕ) (fs : Fs)
      → fs path ≡ none
      → crypto.marshal_private_key new ≡ some out
      → (load_or_create_peer_key (cut_short n) false (some new) path fs).0 path ≡ some (take n out)
  unfolding load_or_create_peer_key
  cut_file new path out n fs missing m =
      rw (missing, m, load_or_create_peer_key) (rw (same_refl path) refl)

  -- A key file that was cut short where it cannot be decoded makes the next start fail, too.
  pub load_or_create_peer_key-cut :
      (g : WriteFault) (new : Text) (newer : Option Text) (path out : Text) (n : ℕ) (fs : Fs)
      → fs path ≡ none
      → crypto.marshal_private_key new ≡ some out
      → crypto.unmarshal_private_key (take n out) ≡ none
      → load_or_create_peer_key g false newer path
          (load_or_create_peer_key (cut_short n) false (some new) path fs).0
        ≡ ((load_or_create_peer_key (cut_short n) false (some new) path fs).0, none)
  load_or_create_peer_key-cut g new newer path out n fs missing m u =
      let fs' = (load_or_create_peer_key (cut_short n) false (some new) path fs).0 in
      reads g newer path (take n out) fs' (cut_file new path out n fs missing m)
      ∙ ap (λ o. (fs', o)) u

  -- The address of the bootstrap peer, over the two parsers.
  unfoldable pub addr_info_from_string :
      {Addr Info : Type 0}
      → (new_multiaddr : Text → Option Addr) → (p2p_info : Addr → Option Info) → Text
      → Option Info
  addr_info_from_string new_multiaddr p2p_info s = elim (new_multiaddr s) [
    | none ↦ none
    | some addr ↦ p2p_info addr
  ]
