-- ===== src/Mesh/Peers.antt =====
-- The known-peers map under a heartbeat and under an eviction: which entry changes, and how.
use pevo_pinner.Prelude.{
  ℕ, ◌+◌, suc, ◌≡◌, refl, ap, inl, inr, Bool, true, false, not, ◌&&◌, ◌||◌, Option, none, some,
  List, [], ◌∷◌, map, length, ltb, leb, arith, if◌then◌else◌, Bool-cases, Option-cases,
}
use pevo_pinner.Prelude.Text.{Text, has, same, same_iff, IsDistinct}
use pevo_pinner.Mesh.{
  MeshManager, MeshPeer, Heartbeat, Outside, find_peer, put_peer, is_own, is_honest, peer_of,
  store_peer, apply_heartbeat, is_expired, evict_loop, evict_expired, mesh_max_peers,
}

abbrev pub Peers : Type 0
Peers = List (Text × MeshPeer)

abbrev pub peer_id : Text × MeshPeer → Text
peer_id (k, p) = k

pub find_peer-put_peer :
    (k j : Text) (p : MeshPeer) (ps : Peers)
    → find_peer j (put_peer k p ps) ≡ (if same k j then some p else find_peer j ps)
unfolding find_peer put_peer
find_peer-put_peer k j p [] = refl
find_peer-put_peer k j p ((i, q) ∷ ps) = elim (Bool-cases (same i k)) [
  | inl e ↦ rw (e, put_peer, find_peer) (rw ((same_iff i k).0 e, find_peer) (ground arith))
  | inr e ↦
      rw (e, put_peer, find_peer)
        (ground (arith, e, same_iff i k, same_iff i j, same_iff k j, find_peer-put_peer k j p ps))
]

pub has-put_peer :
    (k j : Text) (p : MeshPeer) (ps : Peers)
    → has j (map peer_id (put_peer k p ps)) ≡ (same k j || has j (map peer_id ps))
unfolding has put_peer
has-put_peer k j p [] = refl
has-put_peer k j p ((i, q) ∷ ps) = elim (Bool-cases (same i k)) [
  | inl e ↦ rw (e, put_peer, has) (rw ((same_iff i k).0 e) (ground arith))
  | inr e ↦ rw (e, put_peer, has) (ground (arith, has-put_peer k j p ps))
]

pub put_peer-IsDistinct :
    (k : Text) (p : MeshPeer) (ps : Peers)
    → IsDistinct (map peer_id ps)
    → IsDistinct (map peer_id (put_peer k p ps))
unfolding has put_peer
put_peer-IsDistinct k p [] d = (refl, tt)
put_peer-IsDistinct k p ((i, q) ∷ ps) (new, d) = elim (Bool-cases (same i k)) [
  | inl e ↦ rw (e, put_peer) (new, d)
  | inr e ↦
      rw (e, put_peer)
        (
          rw (has-put_peer k i p ps) (ground (arith, e, new, same_iff i k, same_iff k i)),
          put_peer-IsDistinct k p ps d,
        )
]

pub length-put_peer :
    (k : Text) (p : MeshPeer) (ps : Peers)
    → length (put_peer k p ps)
      ≡ elim (find_peer k ps) [ none ↦ suc (length ps) | some known ↦ length ps ]
unfolding find_peer put_peer
length-put_peer k p [] = refl
length-put_peer k p ((i, q) ∷ ps) = elim (Bool-cases (same i k)) [
  | inl e ↦ rw (e, put_peer, find_peer)
  | inr e ↦ elim (Option-cases (find_peer k ps)) [
    | inl f ↦ rw (e, put_peer, find_peer) (rw f (ap suc (rw f at (length-put_peer k p ps))))
    | inr (a, f) ↦ rw (e, put_peer, find_peer) (rw f (ap suc (rw f at (length-put_peer k p ps))))
  ]
]

-- The heartbeat is taken in: not the node's own, no false claim, and known or room for one more.
abbrev pub is_admitted : Outside → MeshManager → Text → Heartbeat → Bool
is_admitted out m sender hb =
    not (is_own m sender) && is_honest out sender hb && elim (find_peer sender m.peers) [
      | none ↦ ltb (length m.peers) mesh_max_peers
      | some known ↦ true
    ]

-- A heartbeat changes no entry but that of its authenticated sender, and that one only if the
-- sender is not the node itself, the claimed ID is absent or decodes to the sender, and the sender
-- is known or fewer than 1024 peers are.
pub find_peer-apply_heartbeat :
    (out : Outside) (now : ℕ) (m : MeshManager) (sender : Text) (hb : Heartbeat) (j : Text)
    → find_peer j (apply_heartbeat out now m sender hb).manager.peers ≡ (
        if is_admitted out m sender hb && same sender j
        then some (peer_of out now m sender hb)
        else find_peer j m.peers)
unfolding apply_heartbeat store_peer
find_peer-apply_heartbeat out now m sender hb j = elim (Bool-cases (is_own m sender)) [
  | inl own ↦ rw (own, apply_heartbeat)
  | inr foreign ↦ elim (Bool-cases (is_honest out sender hb)) [
    | inr lie ↦ rw (foreign, lie, apply_heartbeat)
    | inl honest ↦ elim (Option-cases (find_peer sender m.peers)) [
      | inr (known, e) ↦
          rw (foreign, honest, apply_heartbeat)
            (rw (e, store_peer) (find_peer-put_peer sender j _ m.peers))
      | inl e ↦ elim (Bool-cases (leb mesh_max_peers (length m.peers))) [
        | inl full ↦
            let no_room : ltb (length m.peers) mesh_max_peers ≡ false = ground (arith, full) in
            rw (foreign, honest, apply_heartbeat) (rw (e, store_peer) (rw (full, no_room)))
        | inr room ↦
            let free : ltb (length m.peers) mesh_max_peers ≡ true = ground (arith, room) in
            rw (foreign, honest, apply_heartbeat)
              (rw (e, store_peer) (rw (room, free) (find_peer-put_peer sender j _ m.peers)))
      ]
    ]
  ]
]

find_peer_absent : (k : Text) (ps : Peers) → has k (map peer_id ps) ≡ false → find_peer k ps ≡ none
unfolding find_peer has
find_peer_absent k [] h = refl
find_peer_absent k ((j, p) ∷ ps) h = ground (arith, find_peer_absent k ps)

-- What an eviction leaves of a lookup.
abbrev pub aged : MeshManager → ℕ → Option MeshPeer → Option MeshPeer
aged m now none = none
aged m now (some p) = if ltb (p.last_seen + m.ttl) now then none else some p

pub has-evict_loop :
    (m : MeshManager) (now : ℕ) (k : Text) (ps : Peers)
    → has k (map peer_id ps) ≡ false
    → has k (map peer_id (evict_loop m now ps)) ≡ false
unfolding has evict_loop
has-evict_loop m now k [] h = refl
has-evict_loop m now k ((j, p) ∷ ps) h = ground (arith, has-evict_loop m now k ps)

find_peer-evict_loop :
    (m : MeshManager) (now : ℕ) (k : Text) (ps : Peers)
    → IsDistinct (map peer_id ps)
    → find_peer k (evict_loop m now ps) ≡ aged m now (find_peer k ps)
unfolding find_peer evict_loop is_expired
find_peer-evict_loop m now k [] d = refl
find_peer-evict_loop m now k ((j, p) ∷ ps) (new, d) = elim (Bool-cases (same j k)) [
  | inr other ↦ ground (arith, other, find_peer-evict_loop m now k ps d)
  | inl e ↦
      let gone : find_peer k (evict_loop m now ps) ≡ none =
        find_peer_absent k (evict_loop m now ps)
          (has-evict_loop m now k ps (rw ((same_iff j k).0 e) at new)) in
      ground (arith, e, gone)
]

-- For distinct peer IDs, an eviction removes the entries last seen more than the TTL before now,
-- and keeps each other entry as it is.
pub find_peer-evict_expired :
    (m : MeshManager) (now : ℕ) (k : Text)
    → IsDistinct (map peer_id m.peers)
    → find_peer k (evict_expired m now).peers ≡ aged m now (find_peer k m.peers)
unfolding evict_expired
find_peer-evict_expired m now k d = find_peer-evict_loop m now k m.peers d
