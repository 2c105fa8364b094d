-- ===== src/Node/Lifecycle/Balance.antt =====
-- ipfsnode.go: whatever NewEmbeddedNode opens is closed again, by itself or by Close.
use pevo_pinner.Prelude.{
  Bool, true, false, not, ◌&&◌, ◌||◌, Option, none, some, List, [], ◌∷◌, ◌++◌, ◌≡◌, map,
  if◌then◌else◌, arith,
}
use pevo_pinner.Prelude.Text.{Text}
use pevo_pinner.Node.Lifecycle.{
  Part, server, mesh, bitswap, dht, host, datastore, Event, opened, closed, Internals, Failures,
  nothing_closed, shutdown_internals, signal_done, close, new_embedded_node, HostCalls, has_dht,
  new_succeeds, new_libp2p_host, is_ready,
}

abbrev same_part : Part → Part → Bool
same_part server server = true
same_part mesh mesh = true
same_part bitswap bitswap = true
same_part dht dht = true
same_part host host = true
same_part datastore datastore = true
same_part _ _ = false

abbrev remove_part : Part → List Part → List Part
remove_part p [] = []
remove_part p (q ∷ qs) = if same_part p q then qs else q ∷ remove_part p qs

-- The parts that are open after the events.
unfoldable pub still_open : List Event → List Part → List Part
still_open [] open_parts = open_parts
still_open (opened p ∷ es) open_parts = still_open es (p ∷ open_parts)
still_open (closed p ∷ es) open_parts = still_open es (remove_part p open_parts)

-- The events of a construction, and those of two calls of Close of what it returns.
abbrev pub life : (Part → Bool) → List Event × Option Internals → List Event
life fails (es, none) = es
life fails (es, some n) =
    let once = close fails n in es ++ (once.1.events ++ (close fails once.0).1.events)

-- The construction fails in `libp2p.New` behind that of the DHT.
abbrev pub leaves_dht_of_host : HostCalls → Bool
leaves_dht_of_host c = c.has_identity && (has_dht c && not c.makes_host)

-- The construction fails there or at newBitswap.
abbrev pub leaves_dht : Failures → Bool
leaves_dht f =
    not (f.mkdir || f.repo)
    && (leaves_dht_of_host f.libp2p
        || (f.libp2p.has_identity && (new_succeeds f.libp2p && (has_dht f.libp2p && f.bitswap))))

-- Whatever calls of NewEmbeddedNode fail, with or without a mesh, once it has returned an error, or
-- a node on which Close is called twice, no part that it opened is left open, but for the DHT if
-- newBitswap returns an error, or libp2p.New does after it has made the DHT.
pub still_open-life :
    (f : Failures) (fails : Part → Bool) (bootstrap_addr : Text) (mesh_wanted : Bool)
    → still_open (life fails (new_embedded_node f fails bootstrap_addr mesh_wanted)) []
      ≡ (if leaves_dht f then dht ∷ [] else [])
unfolding new_embedded_node new_libp2p_host shutdown_internals signal_done close still_open
still_open-life f fails addr wanted = ground arith

-- If it returns a host, exactly the host and the DHT are open; if it returns an error, nothing is,
-- but for the DHT if `libp2p.New` fails behind its construction.
pub still_open-new_libp2p_host :
    (c : HostCalls) (bootstrap_addr : Text)
    → let p = new_libp2p_host c bootstrap_addr in
      still_open p.0 []
      ≡ (if is_ready p.1 then dht ∷ host ∷ [] else (if leaves_dht_of_host c then dht ∷ [] else []))
unfolding new_libp2p_host still_open
still_open-new_libp2p_host c bootstrap_addr = ground arith

abbrev listed : Bool → Part → List Part
listed present p = if present then p ∷ [] else []

-- The parts of a node that have a Close with an error, in the order of the calls.
abbrev pub behind_mesh : Internals → List Part
behind_mesh n =
    listed n.has_bitswap bitswap
    ++ (listed n.has_dht dht ++ (listed n.has_host host ++ listed n.has_datastore datastore))

-- The first of some parts whose Close fails.
abbrev pub first_failing : (Part → Bool) → List Part → Option Part
first_failing fails [] = none
first_failing fails (p ∷ ps) = if fails p then some p else first_failing fails ps

-- A first Close closes every part once, in its order, returns the first error, and a second is empty.
pub close_lem :
    (fails : Part → Bool) (n : Internals)
    → n.closed_once ≡ false
    → ((close fails n).1.events
        ≡ map closed (listed n.has_server server ++ (listed n.has_mesh mesh ++ behind_mesh n)))
      × ((close fails n).1.first_err
          ≡ first_failing fails (listed n.has_server server ++ behind_mesh n))
      × ((close fails n).0.done ≡ true)
      × (close fails (close fails n).0 ≡ ((close fails n).0, nothing_closed))
unfolding shutdown_internals signal_done close
close_lem fails n h = (ground (arith, h), ground (arith, h), ground (arith, h), ground (arith, h))
