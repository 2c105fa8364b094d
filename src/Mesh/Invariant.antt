-- ===== src/Mesh/Invariant.antt =====
-- The invariant of the known-peers cache over any history of messages and evictions, and what it
-- gives the fallback chain.
use pevo_pinner.Prelude.{
  ℕ, zero, ◌≤◌, suc, ◌≡◌, refl, sym, ◌⊎◌, inl, inr, Bool, false, some, List, [], ◌∷◌, map, length,
  take, leb, arith, Bool-cases, Option-cases, All,
}
use pevo_pinner.Prelude.Text.{Text, is_empty, same, same_iff, IsDistinct}
use pevo_pinner.Mesh.Url.{validate_mesh_gateway_url}
use pevo_pinner.Mesh.{
  MeshManager, MeshPeer, Heartbeat, Outside, Event, message, tick, find_peer, put_peer, is_own,
  is_honest, parse_multiaddrs, kept_gateway, capped, peer_of, store_peer, apply_heartbeat,
  is_expired, evict_loop, evict_expired, handle, handle_all, mesh_max_peers, mesh_max_multiaddrs,
}
use pevo_pinner.Mesh.Peers.{Peers, peer_id, put_peer-IsDistinct, length-put_peer, has-evict_loop}

-- No gateway, or one that the validation gave back for some text.
abbrev pub IsVetted : Outside → (allow_private : Bool) → Text → Type 0
IsVetted out allow_private url =
    (url ≡ [])
    ⊎ ((raw : Text) × (validate_mesh_gateway_url out.net out.url raw allow_private ≡ some url))

-- An entry of the map of `m`: it stands under its own ID, which is not that of the node, has at most
-- eight addresses, and a vetted gateway.
abbrev pub IsGoodEntry : Outside → MeshManager → Text × MeshPeer → Type 0
IsGoodEntry out m (k, p) =
    (p.addr_info.id ≡ k)
    × (is_own m k ≡ false)
    × (length p.addr_info.addrs ≤ mesh_max_multiaddrs)
    × IsVetted out m.allow_private_gateways p.gateway_url

abbrev pub IsGood : Outside → MeshManager → Type 0
IsGood out m =
    (length m.peers ≤ mesh_max_peers)
    × IsDistinct (map peer_id m.peers)
    × All (IsGoodEntry out m) m.peers

length-parse_multiaddrs :
    (out : Outside) (ms : List Text) → length (parse_multiaddrs out ms) ≤ length ms
unfolding parse_multiaddrs
length-parse_multiaddrs out [] = omega arith
length-parse_multiaddrs out (s ∷ ss) = elim (Option-cases (out.new_multiaddr s)) [
  | inl e ↦ rw (e, parse_multiaddrs) (omega (arith, length-parse_multiaddrs out ss))
  | inr (a, e) ↦ rw (e, parse_multiaddrs) (omega (arith, length-parse_multiaddrs out ss))
]

length-take : (n : ℕ) (xs : List Text) → length (take n xs) ≤ n
length-take zero xs = omega arith
length-take (suc n) [] = omega arith
length-take (suc n) (x ∷ xs) = omega (arith, length-take n xs)

length-capped : (ms : List Text) → length (capped ms) ≤ mesh_max_multiaddrs
length-capped ms = ground (arith, length-take mesh_max_multiaddrs ms)

kept_gateway-IsVetted :
    (out : Outside) (m : MeshManager) (hb : Heartbeat)
    → IsVetted out m.allow_private_gateways (kept_gateway out m hb)
unfolding kept_gateway
kept_gateway-IsVetted out m hb = elim (Bool-cases (is_empty hb.gateway_url)) [
  | inl none_given ↦ rw (none_given, kept_gateway) (inl refl)
  | inr given ↦
      elim (Option-cases
        (validate_mesh_gateway_url out.net out.url hb.gateway_url m.allow_private_gateways)) [
          | inl e ↦ rw (given, e, kept_gateway) (inl refl)
          | inr (url, e) ↦ rw (given, e, kept_gateway) (inr (hb.gateway_url, e))
        ]
]

peer_of-IsGoodEntry :
    (out : Outside) (now : ℕ) (m : MeshManager) (sender : Text) (hb : Heartbeat)
    → is_own m sender ≡ false
    → IsGoodEntry out m (sender, peer_of out now m sender hb)
unfolding peer_of
peer_of-IsGoodEntry out now m sender hb foreign = (
  refl,
  foreign,
  omega (arith, length-parse_multiaddrs out (capped hb.multiaddrs), length-capped hb.multiaddrs),
  kept_gateway-IsVetted out m hb,
)

put_peer-All :
    (out : Outside) (m : MeshManager) (k : Text) (p : MeshPeer) (ps : Peers)
    → IsGoodEntry out m (k, p)
    → All (IsGoodEntry out m) ps
    → All (IsGoodEntry out m) (put_peer k p ps)
unfolding put_peer
put_peer-All out m k p [] q h = (q, tt)
put_peer-All out m k p ((i, r) ∷ ps) q (s, h) = elim (Bool-cases (same i k)) [
  | inl e ↦ rw (e, put_peer) (rw (sym ((same_iff i k).0 e)) at q, h)
  | inr e ↦ rw (e, put_peer) (s, put_peer-All out m k p ps q h)
]

store_peer-IsGood :
    (out : Outside) (m : MeshManager) (sender : Text) (mp : MeshPeer)
    → IsGoodEntry out m (sender, mp)
    → IsGood out m
    → IsGood out (store_peer m sender mp).manager
unfolding store_peer
store_peer-IsGood out m sender mp q (small, d, all) =
    let bound = length-put_peer sender mp m.peers in
    elim (Option-cases (find_peer sender m.peers)) [
      | inr (known, e) ↦
          rw (e, store_peer)
            (
              omega (arith, small, rw e at bound),
              put_peer-IsDistinct sender mp m.peers d,
              put_peer-All out m sender mp m.peers q all,
            )
      | inl e ↦ elim (Bool-cases (leb mesh_max_peers (length m.peers))) [
        | inl full ↦ rw (e, store_peer) (rw full (small, d, all))
        | inr room ↦
            rw (e, store_peer)
              (rw room (
                ground (arith, room, rw e at bound),
                put_peer-IsDistinct sender mp m.peers d,
                put_peer-All out m sender mp m.peers q all,
              ))
      ]
    ]

apply_heartbeat-IsGood :
    (out : Outside) (now : ℕ) (m : MeshManager) (sender : Text) (hb : Heartbeat)
    → IsGood out m
    → IsGood out (apply_heartbeat out now m sender hb).manager
unfolding apply_heartbeat
apply_heartbeat-IsGood out now m sender hb h = elim (Bool-cases (is_own m sender)) [
  | inl own ↦ rw (own, apply_heartbeat) h
  | inr foreign ↦ elim (Bool-cases (is_honest out sender hb)) [
    | inr lie ↦ rw (foreign, lie, apply_heartbeat) h
    | inl honest ↦
        rw (foreign, honest, apply_heartbeat)
          (store_peer-IsGood out m sender (peer_of out now m sender hb)
            (peer_of-IsGoodEntry out now m sender hb foreign) h)
  ]
]

length-evict_loop :
    (m : MeshManager) (now : ℕ) (ps : Peers) → length (evict_loop m now ps) ≤ length ps
unfolding evict_loop
length-evict_loop m now [] = omega arith
length-evict_loop m now (e ∷ es) = ground (arith, length-evict_loop m now es)

evict_loop-IsDistinct :
    (m : MeshManager) (now : ℕ) (ps : Peers)
    → IsDistinct (map peer_id ps)
    → IsDistinct (map peer_id (evict_loop m now ps))
unfolding evict_loop
evict_loop-IsDistinct m now [] d = tt
evict_loop-IsDistinct m now ((k, p) ∷ es) (new, d) = elim (Bool-cases (is_expired m now (k, p))) [
  | inl old ↦ rw (old, evict_loop) (evict_loop-IsDistinct m now es d)
  | inr live ↦
      rw (live, evict_loop) (has-evict_loop m now k es new, evict_loop-IsDistinct m now es d)
]

evict_loop-All :
    (out : Outside) (m : MeshManager) (now : ℕ) (ps : Peers)
    → All (IsGoodEntry out m) ps
    → All (IsGoodEntry out m) (evict_loop m now ps)
unfolding evict_loop
evict_loop-All out m now [] h = tt
evict_loop-All out m now (e ∷ es) (q, h) = elim (Bool-cases (is_expired m now e)) [
  | inl old ↦ rw (old, evict_loop) (evict_loop-All out m now es h)
  | inr live ↦ rw (live, evict_loop) (q, evict_loop-All out m now es h)
]

handle-IsGood :
    (out : Outside) (e : Event) (m : MeshManager) → IsGood out m → IsGood out (handle out e m)
unfolding handle evict_expired
handle-IsGood out (message now sender payload) m h = elim (Bool-cases (is_own m sender)) [
  | inl own ↦ rw (own, handle) h
  | inr foreign ↦ elim (Option-cases (out.unmarshal payload)) [
    | inl e ↦ rw (foreign, e, handle) h
    | inr (hb, e) ↦ rw (foreign, e, handle) (apply_heartbeat-IsGood out now m sender hb h)
  ]
]
handle-IsGood out (tick now) m (small, d, all) = (
  omega (arith, small, length-evict_loop m now m.peers),
  evict_loop-IsDistinct m now m.peers d,
  evict_loop-All out m now m.peers all,
)

-- Over any history of messages of the topic and of evictions, the cache keeps at most 1024 peers
-- under distinct IDs, none of them the ID of the node, each entry with its own ID, at most eight
-- addresses, and no gateway URL but one that the validation returned.
pub handle_all-IsGood :
    (out : Outside) (es : List Event) (m : MeshManager)
    → IsGood out m
    → IsGood out (handle_all out es m)
unfolding handle_all
handle_all-IsGood out [] m h = h
handle_all-IsGood out (e ∷ es) m h =
    handle_all-IsGood out es (handle out e m) (handle-IsGood out e m h)
