-- ===== src/Node/Tests.antt =====
-- A node whose bitswap always works, and the results applied to it.
use pevo_pinner.Prelude.{
  arith, ◌≡◌, refl, sym, ◌⊎◌, ◌↔◌, true, false, none, some, [], ◌∷◌, ◌++◌, if◌then◌else◌,
}
use pevo_pinner.Prelude.Text.{Text, codes, has, before}
use pevo_pinner.Cid.{validate_cid}
use pevo_pinner.AtomicFile.{Faults, atomic_write_calls, atomic_write_file}
use pevo_pinner.Node.{EmbeddedNode, Outside, add_key, save_pins, pin, load_pins, forwarded}
use pevo_pinner.Node.Pins.{Settles, is_ready, pin-Settles, restarted, has-load_pins}
use pevo_pinner.Node.Drain.{
  next_id, register, Gate, open_gate, enter, unregister, leave, signal_done, drained, GateReach,
  start, later, IsCounted, GateReach-IsCounted,
}
use pevo_pinner.Backend.{IsPinSet}
use pevo_pinner.Node.Lifecycle.{
  Failures, HostCalls, new_libp2p_host, refused, construction, dht, opened, new_embedded_node,
}
use pevo_pinner.Node.Lifecycle.Balance.{still_open, life, leaves_dht, still_open-life}
use pevo_pinner.Node.Host.{gateway_mux, guarded, is_under, gateway_mux_iff}
use pevo_pinner.Node.PeerKey.{
  Crypto, no_fault, load_or_create_peer_key, load_or_create_peer_key_lem,
}
use pevo_pinner.Node.Interface.{embedded_backend, embedded_backend-IsPinSet}

abbrev pub cid : Text
cid = codes "QmYwAPJzv5CZsnA625s3Xf2nemtYgPpHdWEz79ojWKePdF"

abbrev pub outside : Outside
outside = record {
  decode = λ c. some c;
  fetch_graph = λ bs k. (bs ++ k ∷ [], true);
  walk = λ bs k. false;
  chain = [];
  get = λ url. none;
  put_faults = λ gw i. none;
  marshal = λ cs. elim cs [ [] ↦ some [] | c ∷ rest ↦ some c ];
  unmarshal = λ bytes. some (bytes ∷ []);
}

abbrev pub no_faults : Faults
no_faults = record {
  open_fails = false;
  write_fails = false;
  written = 0;
  sync_fails = false;
  close_fails = false;
  rename_fails = false;
  remove_fails = false;
}

abbrev pub node : EmbeddedNode
node = record {
  pins = [];
  pin_file = codes "pins.json";
  fs = λ p. none;
  blockstore = [];
  max_pin_bytes = 1000;
  done = false;
}

abbrev pub pinning : EmbeddedNode
pinning = record node { pins = cid ∷ [] }

pin_sets_the_key : (pin outside no_faults cid node).0.pins ≡ cid ∷ []
unfolding pin add_key save_pins validate_cid has
pin_sets_the_key = refl

pin-Settles_example :
    Settles outside cid node (is_ready outside cid node) (pin outside no_faults cid node)
pin-Settles_example = pin-Settles outside no_faults cid node

written : (atomic_write_file no_faults node.fs node.pin_file cid).1 ≡ true
unfolding atomic_write_file atomic_write_calls
written = refl

has-load_pins_example :
    has cid (load_pins outside (restarted (save_pins outside no_faults pinning))).pins
    ≡ has cid pinning.pins
has-load_pins_example =
    has-load_pins outside no_faults pinning cid (cid ∷ []) cid refl refl (λ y. refl) written

pub valid : validate_cid cid ≡ true
unfolding validate_cid
valid = refl

-- A pin goes through, and a Drain that was called meanwhile returns.
abbrev one_pin : Gate
one_pin = record open_gate { in_flight = 1; next_pin_id = 1; accepted = 1; cancels = 1 ∷ [] }

abbrev shut : Gate
shut = record one_pin { done = true }

abbrev unregistered : Gate
unregistered = record shut { cancels = []; leaving = 1 }

abbrev idle : Gate
idle = record unregistered { in_flight = 0; leaving = 0 }

drained-GateReach : GateReach (record idle { has_drained = true })
unfolding next_id register
drained-GateReach =
    later idle (record idle { has_drained = true })
      (later unregistered idle
        (later shut unregistered
          (later one_pin shut (later open_gate one_pin start (enter open_gate refl))
            (signal_done one_pin))
          (unregister shut [] [] 1 refl))
        (leave unregistered 0 0 refl refl))
      (drained idle refl refl)

GateReach-IsCounted_example : IsCounted (record idle { has_drained = true })
GateReach-IsCounted_example =
    GateReach-IsCounted (record idle { has_drained = true }) drained-GateReach (omega arith)

embedded_backend-IsPinSet_example :
    IsPinSet (embedded_backend (λ now. outside) (λ now. no_faults)) (λ n x. has x n.pins)
embedded_backend-IsPinSet_example = embedded_backend-IsPinSet (λ now. outside) (λ now. no_faults)

-- The DHT is made, and the rest of the construction of the host fails.
abbrev half_made : HostCalls
half_made = record {
  has_identity = true;
  calls_routing = true;
  makes_dht = true;
  makes_host = false;
}

dht_left_open : new_libp2p_host half_made [] ≡ (opened dht ∷ [], refused construction)
unfolding new_libp2p_host
dht_left_open = refl

-- The construction of the host fails so.
abbrev no_host : Failures
no_host = record {
  mkdir = false;
  repo = false;
  libp2p = half_made;
  bitswap = false;
  gateway = false;
  mesh = false;
}

still_open-life_example :
    still_open (life (λ p. false) (new_embedded_node no_host (λ p. false) [] true)) []
    ≡ (if leaves_dht no_host then dht ∷ [] else [])
still_open-life_example = still_open-life no_host (λ p. false) [] true

abbrev plain_keys : Crypto
plain_keys = record {
  unmarshal_private_key = λ bytes. some bytes;
  marshal_private_key = λ k. some k;
}

plain_round : (a bytes : Text) → some a ≡ some bytes → some bytes ≡ some a
plain_round a bytes e = sym e

load_or_create_peer_key_lem_example :
    load_or_create_peer_key plain_keys no_fault false
      (some (codes "other"))
      (codes "peer.key")
      (load_or_create_peer_key plain_keys no_fault false
        (some (codes "key"))
        (codes "peer.key")
        (λ p. none)).0
    ≡ (
      (load_or_create_peer_key plain_keys no_fault false
          (some (codes "key"))
          (codes "peer.key")
          (λ p. none)).0,
      some (codes "key"),
    )
unfolding load_or_create_peer_key
load_or_create_peer_key_lem_example =
    load_or_create_peer_key_lem plain_keys plain_round no_fault no_fault (some (codes "key"))
      (some (codes "other")) (codes "peer.key") (codes "key") (λ p. none) refl

gateway_mux_iff_example : (gateway_mux pinning (codes "/ipfs/" ++ cid) ≡ guarded forwarded) ↔ (
    (is_under (codes "/ipns/") (codes "/ipfs/" ++ cid) ≡ true)
    ⊎ ((rest : Text) × (codes "/ipfs/" ++ cid ≡ codes "/ipfs/" ++ rest)
        × (validate_cid (before b'/' rest) ≡ true)
        × (has (before b'/' rest) pinning.pins ≡ true)))
gateway_mux_iff_example = gateway_mux_iff pinning (codes "/ipfs/" ++ cid)
