-- ===== src/Mesh.antt =====
-- ipfsnode_pubsub.go: the known-peers cache of the mesh, fed by heartbeats and emptied by age. An
-- instant is a natural number; `lastSeen.Before(now - ttl)` is written `last_seen + ttl < now`.
pub mod Url
pub mod Peers
pub mod Invariant
pub mod Fallback
pub mod Publish
pub mod Goroutines
mod Tests
use pevo_pinner.Prelude.{
  ℕ, ◌+◌, Bool, true, false, not, ◌&&◌, ◌||◌, Option, none, some, List, [], ◌∷◌, length, take, map,
  ltb, leb, keep, if◌then◌else◌,
}
use pevo_pinner.Prelude.Text.{Text, is_empty, same, has}
use pevo_pinner.Fetch.Url.{UrlPackage}
use pevo_pinner.Mesh.Url.{NetPackage, validate_mesh_gateway_url}

abbrev pub mesh_max_multiaddrs : ℕ
mesh_max_multiaddrs = 8

abbrev pub mesh_max_peers : ℕ
mesh_max_peers = 1024

pub record Heartbeat : Type 0 where
  pub peer_id : Text
  pub multiaddrs : List Text
  pub gateway_url : Text
  pub sent : ℕ

pub record AddrInfo : Type 0 where
  pub id : Text
  pub addrs : List Text

pub record MeshPeer : Type 0 where
  pub addr_info : AddrInfo
  pub gateway_url : Text
  pub last_seen : ℕ

-- The field `peers` is a Go map: its entries by peer ID. `host_id` is none if `host` is nil.
pub record MeshManager : Type 0 where
  pub host_id : Option Text
  pub ttl : ℕ
  pub allow_private_gateways : Bool
  pub peers : List (Text × MeshPeer)

-- What the code takes from libp2p, `encoding/json` and the network: none stands for an error.
pub record Outside : Type 0 where
  pub net : NetPackage
  pub url : UrlPackage
  pub decode_peer : Text → Option Text
  pub new_multiaddr : Text → Option Text
  pub unmarshal : Text → Option Heartbeat

unfoldable pub find_peer : Text → List (Text × MeshPeer) → Option MeshPeer
find_peer k [] = none
find_peer k ((j, p) ∷ ps) = if same j k then some p else find_peer k ps

-- `m.peers[k] = p`
unfoldable pub put_peer : Text → MeshPeer → List (Text × MeshPeer) → List (Text × MeshPeer)
put_peer k p [] = (k, p) ∷ []
put_peer k p ((j, q) ∷ ps) = if same j k then (j, p) ∷ ps else (j, q) ∷ put_peer k p ps

abbrev pub is_own : MeshManager → Text → Bool
is_own m sender = elim m.host_id [ none ↦ false | some own ↦ same sender own ]

-- The claimed peer ID is absent or that of the sender.
unfoldable pub is_honest : Outside → Text → Heartbeat → Bool
is_honest out sender hb =
    if is_empty hb.peer_id
    then true
    else elim (out.decode_peer hb.peer_id) [ none ↦ false | some claimed ↦ same claimed sender ]

unfoldable pub parse_multiaddrs : Outside → List Text → List Text
parse_multiaddrs out [] = []
parse_multiaddrs out (s ∷ ss) =
    let rest = parse_multiaddrs out ss in
    elim (out.new_multiaddr s) [ none ↦ rest | some a ↦ a ∷ rest ]

unfoldable pub kept_gateway : Outside → MeshManager → Heartbeat → Text
kept_gateway out m hb =
    if is_empty hb.gateway_url
    then []
    else elim (validate_mesh_gateway_url out.net out.url hb.gateway_url m.allow_private_gateways) [
      | none ↦ []
      | some normalized ↦ normalized
    ]

-- The multiaddrs that are read: the first eight.
abbrev pub capped : List Text → List Text
capped ms = if ltb mesh_max_multiaddrs (length ms) then take mesh_max_multiaddrs ms else ms

unfoldable pub peer_of : Outside → (now : ℕ) → MeshManager → Text → Heartbeat → MeshPeer
peer_of out now m sender hb = record {
  addr_info = record { id = sender; addrs = parse_multiaddrs out (capped hb.multiaddrs) };
  gateway_url = kept_gateway out m hb;
  last_seen = now;
}

-- The manager, and whom the code dials.
pub record Applied : Type 0 where
  pub manager : MeshManager
  pub dial : Option AddrInfo

-- The part under the lock, and the dial of a peer that was not known.
unfoldable pub store_peer : MeshManager → Text → MeshPeer → Applied
store_peer m sender mp = elim (find_peer sender m.peers) [
  | some known ↦ record { manager = record m { peers = put_peer sender mp m.peers }; dial = none }
  | none ↦
      if leb mesh_max_peers (length m.peers) then record { manager = m; dial = none } else record {
        manager = record m { peers = put_peer sender mp m.peers };
        dial = elim m.host_id [
          | none ↦ none
          | some own ↦ if is_empty mp.addr_info.addrs then none else some mp.addr_info
        ];
      }
]

unfoldable pub apply_heartbeat : Outside → (now : ℕ) → MeshManager → Text → Heartbeat → Applied
unfolding store_peer
apply_heartbeat out now m sender hb =
    if is_own m sender
    then record { manager = m; dial = none }
    else (if is_honest out sender hb
        then store_peer m sender (peer_of out now m sender hb)
        else record { manager = m; dial = none })

unfoldable pub is_expired : MeshManager → (now : ℕ) → Text × MeshPeer → Bool
is_expired m now (k, p) = ltb (p.last_seen + m.ttl) now

unfoldable pub evict_loop :
    MeshManager → (now : ℕ) → List (Text × MeshPeer) → List (Text × MeshPeer)
evict_loop m now [] = []
evict_loop m now (e ∷ es) =
    let rest = evict_loop m now es in if is_expired m now e then rest else e ∷ rest

unfoldable pub evict_expired : MeshManager → (now : ℕ) → MeshManager
unfolding evict_loop is_expired
evict_expired m now = record m { peers = evict_loop m now m.peers }

-- What the loops of the manager act on: a message of the topic, and a tick of the eviction.
pub data Event : Type 0 where
  message : (now : ℕ) → (sender : Text) → (payload : Text) → Event
  tick : (now : ℕ) → Event

-- One round of recvLoop or of evictLoop.
unfoldable pub handle : Outside → Event → MeshManager → MeshManager
unfolding apply_heartbeat evict_expired
handle out (message now sender payload) m =
    if is_own m sender then m else elim (out.unmarshal payload) [
      | none ↦ m
      | some hb ↦ (apply_heartbeat out now m sender hb).manager
    ]
handle out (tick now) m = evict_expired m now

unfoldable pub handle_all : Outside → List Event → MeshManager → MeshManager
unfolding handle
handle_all out [] m = m
handle_all out (e ∷ es) m = handle_all out es (handle out e m)

-- The URLs that the fallback chain takes from a snapshot of KnownPeers.
unfoldable pub known_peers : MeshManager → List MeshPeer
known_peers m = map (λ (k, p). p) m.peers
