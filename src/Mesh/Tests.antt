-- ===== src/Mesh/Tests.antt =====
-- A mesh of three peers, and the results applied to it.
use pevo_pinner.Prelude.{
  ◌≡◌, refl, ◌⊎◌, true, inr, false, none, some, List, [], ◌∷◌, map, arith, All,
}
use pevo_pinner.Prelude.Text.{codes, same, has}
use pevo_pinner.Fetch.Url.{trim_right_slashes}
use pevo_pinner.Fetch.Chain.{assemble_fallback_chain, compose_static_chain}
use pevo_pinner.Mesh.Url.{is_unsafe_ip, is_unsafe_host, validate_mesh_gateway_url}
use pevo_pinner.Mesh.{
  MeshManager, Heartbeat, Outside, Event, message, tick, find_peer, put_peer, is_honest, peer_of,
  kept_gateway, store_peer, apply_heartbeat, evict_loop, is_expired, evict_expired, handle,
  handle_all, known_peers,
}
use pevo_pinner.Mesh.Goroutines.{
  Goroutines, started, running, GoReach, start, later, dial, quiet_after_stop,
}
use pevo_pinner.Mesh.Invariant.{IsGood, handle_all-IsGood}
use pevo_pinner.Mesh.Fallback.{
  gateway_of, IsConfigured, IsGuarded, assemble_fallback_chain-All-IsConfigured,
}

-- Every text is an https URL with itself as host; names that begin with `l` are loopback literals.
abbrev pub toy_outside : Outside
toy_outside = record {
  net = record {
    equal_fold = same;
    parse_ip = λ h. some h;
    lookup_ip = λ h. none;
    is_loopback = λ ip. elim ip [ [] ↦ false | c ∷ rest ↦ same (c ∷ []) (codes "l") ];
    is_link_local_unicast = λ ip. false;
    is_link_local_multicast = λ ip. false;
    is_interface_local_multicast = λ ip. false;
    is_multicast = λ ip. false;
    is_unspecified = λ ip. false;
    is_private = λ ip. false;
  };
  url = record {
    parse = λ t. some (record {
      scheme = codes "https";
      has_user = false;
      host = t;
      path = [];
      raw_query = [];
      fragment = [];
      untouched = [];
    });
    print = λ u. u.host;
    hostname = λ u. u.host;
    lower = λ t. t;
    trim_space = λ t. t;
  };
  decode_peer = λ t. some t;
  new_multiaddr = λ t. some t;
  unmarshal = λ t. some (record { peer_id = []; multiaddrs = t ∷ []; gateway_url = t; sent = 0 });
}

abbrev pub empty_mesh : MeshManager
empty_mesh = record {
  host_id = some (codes "me");
  ttl = 300;
  allow_private_gateways = false;
  peers = [];
}

abbrev history : List Event
history =
    message 0 (codes "a") (codes "gw")
    ∷ message 5 (codes "b") (codes "local")
    ∷ message 6 (codes "me") (codes "gw")
    ∷ tick 302
    ∷ []

-- The first peer is evicted, the gateway of the second is refused, and the own message is left.
gateways_left : map gateway_of (known_peers (handle_all toy_outside history empty_mesh)) ≡ [] ∷ []
unfolding handle_all handle known_peers apply_heartbeat store_peer evict_expired evict_loop
    is_expired find_peer put_peer peer_of is_honest kept_gateway validate_mesh_gateway_url
    is_unsafe_host is_unsafe_ip same
gateways_left = refl

empty_mesh-IsGood : IsGood toy_outside empty_mesh
empty_mesh-IsGood = (omega arith, tt, tt)

handle_all-IsGood_example : IsGood toy_outside (handle_all toy_outside history empty_mesh)
handle_all-IsGood_example = handle_all-IsGood toy_outside history empty_mesh empty_mesh-IsGood

abbrev liar : Heartbeat
liar = record { peer_id = codes "victim"; multiaddrs = []; gateway_url = codes "gw"; sent = 0 }

abbrev one_peer : MeshManager
one_peer = record empty_mesh {
  peers =
      (
        codes "a",
        record {
          addr_info = record { id = codes "a"; addrs = [] };
          gateway_url = [];
          last_seen = 7;
        },
      )
      ∷ [];
}

abbrev gateway_mesh : MeshManager
gateway_mesh = record empty_mesh {
  peers =
      (
        codes "a",
        record {
          addr_info = record { id = codes "a"; addrs = [] };
          gateway_url = codes "gw";
          last_seen = 7;
        },
      )
      ∷ [];
}

gateway_mesh-IsGood : IsGood toy_outside gateway_mesh
unfolding has same validate_mesh_gateway_url is_unsafe_host is_unsafe_ip trim_right_slashes
gateway_mesh-IsGood =
    (omega arith, (refl, tt), ((refl, refl, omega arith, inr (codes "gw", refl)), tt))

assemble_fallback_chain-All-IsConfigured_example :
    All
      (λ u. IsConfigured (codes "m") [] u ⊎ IsGuarded toy_outside false u)
      (assemble_fallback_chain toy_outside.url
        (compose_static_chain (codes "m") [])
        (some (map gateway_of (known_peers gateway_mesh))))
assemble_fallback_chain-All-IsConfigured_example =
    assemble_fallback_chain-All-IsConfigured toy_outside gateway_mesh gateway_mesh-IsGood
      (codes "m") []

-- A node that only listens: a peer is found, and Stop waits for the dial.
abbrev dialling : Goroutines
dialling = record (started true) { dials = 1; wg = 3 }

dialling_reached : GoReach true dialling
unfolding started
dialling_reached = later _ _ start (dial (started true) refl)

quiet_after_stop_example :
    (dialling.wg ≡ running dialling)
    × ((dialling.advertises ≡ false) ⊎ (true ≡ false))
    × (((dialling.has_stopped ≡ false) × (dialling.is_host_closed ≡ false))
        ⊎ (running dialling ≡ 0))
unfolding started
quiet_after_stop_example = quiet_after_stop true dialling dialling_reached
