-- ===== src/Node/Lifecycle.antt =====
-- ipfsnode.go: NewEmbeddedNode as the parts that it opens, with newLibp2pHost (ipfsnode_libp2p.go),
-- and Close with shutdownInternals, as the parts that they close.
pub mod Balance
use pevo_pinner.Prelude.{
  Bool, true, false, not, ◌&&◌, ◌||◌, Option, none, some, List, [], ◌∷◌, ◌++◌, if◌then◌else◌,
}
use pevo_pinner.Prelude.Text.{Text, is_empty}

pub data Part : Type 0 where
  server mesh bitswap dht host datastore : Part

pub data Event : Type 0 where
  opened : Part → Event
  closed : Part → Event

-- The fields that are not nil, of those that `Close` looks at.
pub record Internals : Type 0 where
  pub has_server : Bool
  pub has_mesh : Bool
  pub has_bitswap : Bool
  pub has_dht : Bool
  pub has_host : Bool
  pub has_datastore : Bool
  pub done : Bool
  pub closed_once : Bool

-- What the calls of newLibp2pHost come to: whether the peer key is there, whether `libp2p.New` calls
-- the constructor of the routing and `dht.New` succeeds in it, and whether the rest of `libp2p.New`
-- succeeds. It returns an error of the constructor, and closes its own host on any error.
pub record HostCalls : Type 0 where
  pub has_identity : Bool
  pub calls_routing : Bool
  pub makes_dht : Bool
  pub makes_host : Bool

pub data HostError : Type 0 where
  peer_identity construction no_dht : HostError

pub data NewHost : Type 0 where
  refused : HostError → NewHost
  -- The host, with the address that is dialled in the background, if there is one.
  ready : (bootstrap : Option Text) → NewHost

abbrev pub bootstrap_of : Text → Option Text
bootstrap_of addr = if is_empty addr then none else some addr

-- `kadDHT` is not nil.
abbrev pub has_dht : HostCalls → Bool
has_dht c = c.calls_routing && c.makes_dht

abbrev pub dht_events : HostCalls → List Event
dht_events c = if has_dht c then opened dht ∷ [] else []

-- `libp2p.New` returns no error.
abbrev pub new_succeeds : HostCalls → Bool
new_succeeds c = (not c.calls_routing || c.makes_dht) && c.makes_host

unfoldable pub new_libp2p_host : HostCalls → (bootstrap_addr : Text) → List Event × NewHost
new_libp2p_host c bootstrap_addr =
    if not c.has_identity
    then ([], refused peer_identity)
    else (if not (new_succeeds c)
        then (dht_events c, refused construction)
        else (if not (has_dht c)
            then (opened host ∷ closed host ∷ [], refused no_dht)
            else (opened host ∷ opened dht ∷ [], ready (bootstrap_of bootstrap_addr))))

abbrev pub is_ready : NewHost → Bool
is_ready (refused e) = false
is_ready (ready b) = true

-- The calls that fail, and what those of newLibp2pHost come to.
pub record Failures : Type 0 where
  pub mkdir : Bool
  pub repo : Bool
  pub libp2p : HostCalls
  pub bitswap : Bool
  pub gateway : Bool
  pub mesh : Bool

-- What a chain of Close calls has done, and `firstErr`: the part whose error it is.
pub record Closing : Type 0 where
  pub events : List Event
  pub first_err : Option Part

abbrev pub nothing_closed : Closing
nothing_closed = record { events = []; first_err = none }

-- `if err := … && firstErr == nil { firstErr = err }`
abbrev pub first_of : Option Part → Part → Bool → Option Part
first_of none p true = some p
first_of none p false = none
first_of (some q) p fails = some q

abbrev pub close_part : (Part → Bool) → Part → Bool → Closing → Closing
close_part fails p present c =
    if present
    then record { events = c.events ++ closed p ∷ []; first_err = first_of c.first_err p (fails p) }
    else c

-- `Stop` of the mesh has no error.
abbrev pub stop_mesh : Bool → Closing → Closing
stop_mesh present c = if present then record c { events = c.events ++ closed mesh ∷ [] } else c

unfoldable pub shutdown_internals : (Part → Bool) → Internals → Closing
shutdown_internals fails n = close_part fails datastore n.has_datastore (
    close_part fails host n.has_host (
      close_part fails dht n.has_dht
        (close_part fails bitswap n.has_bitswap (stop_mesh n.has_mesh nothing_closed))))

unfoldable pub signal_done : Internals → Internals
signal_done n = record n { done = true }

-- `firstErr` of Close, from that of the server and that of shutdownInternals.
abbrev pub or_else : Option Part → Option Part → Option Part
or_else none e = e
or_else (some p) e = some p

unfoldable pub close : (Part → Bool) → Internals → Internals × Closing
unfolding shutdown_internals signal_done
close fails n =
    if n.closed_once
    then (n, nothing_closed)
    else (let served = close_part fails server n.has_server nothing_closed in
        let inner = shutdown_internals fails n in
        (
          record (signal_done n) { closed_once = true },
          record {
            events = served.events ++ inner.events;
            first_err = or_else served.first_err inner.first_err;
          },
        ))

abbrev pub new_internals : (has_server has_mesh : Bool) → Internals
new_internals has_server has_mesh = record {
  has_server = has_server;
  has_mesh = has_mesh;
  has_bitswap = true;
  has_dht = true;
  has_host = true;
  has_datastore = true;
  done = false;
  closed_once = false;
}

-- What NewEmbeddedNode opens and closes again, and the node if it returns one.
unfoldable pub new_embedded_node :
    Failures
    → (fails : Part → Bool) → (bootstrap_addr : Text) → (mesh_wanted : Bool)
    → List Event × Option Internals
unfolding shutdown_internals
new_embedded_node f fails bootstrap_addr mesh_wanted =
    let stored = opened datastore ∷ [] in
    let made = new_libp2p_host f.libp2p bootstrap_addr in
    let hosted = stored ++ made.0 in
    let swapped = hosted ++ opened bitswap ∷ [] in
    if f.mkdir || f.repo
    then ([], none)
    else (if not (is_ready made.1)
        then (hosted ++ closed datastore ∷ [], none)
        else (if f.bitswap
            then (hosted ++ (closed host ∷ closed datastore ∷ []), none)
            else (if f.gateway
                then (
                  swapped ++ (shutdown_internals fails (new_internals false false)).events,
                  none,
                )
                else (let served = swapped ++ opened server ∷ [] in
                    if mesh_wanted && not f.mesh
                    then (served ++ opened mesh ∷ [], some (new_internals true true))
                    else (served, some (new_internals true false))))))
