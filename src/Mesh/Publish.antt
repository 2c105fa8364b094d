-- ===== src/Mesh/Publish.antt =====
-- ipfsnode_pubsub.go: publishHeartbeat, and what the heartbeat of one pinner does to the cache of
-- another.
mod Tests
use pevo_pinner.Prelude.{
  ℕ, zero, suc, ◌≡◌, refl, ap, ◌∙◌, sym, Bool, true, false, not, ◌&&◌, Option, none, some, List, [],
  ◌∷◌, length, map, take, ltb, inl, inr, Bool-cases, Option-cases, arith, if◌then◌else◌,
}
use pevo_pinner.Prelude.Text.{Text, is_empty, same, same_refl, same_iff}
use pevo_pinner.Mesh.{
  MeshManager, MeshPeer, Heartbeat, Outside, message, find_peer, is_own, is_honest,
  parse_multiaddrs, capped, kept_gateway, peer_of, apply_heartbeat, handle, mesh_max_peers,
  mesh_max_multiaddrs,
}
use pevo_pinner.Mesh.Peers.{is_admitted, find_peer-apply_heartbeat}

-- What publishHeartbeat reads: the host and the advertised gateway.
pub record Publisher : Type 0 where
  pub id : Text
  pub addrs : List Text
  pub gateway_url : Text

-- `peer.ID.String`, `Multiaddr.String` and `json.Marshal` (none: an error).
pub record Printing : Type 0 where
  pub print_peer : Text → Text
  pub print_multiaddr : Text → Text
  pub marshal : Heartbeat → Option Text

unfoldable pub heartbeat_of : Printing → Publisher → (now : ℕ) → Heartbeat
heartbeat_of pr p now = record {
  peer_id = pr.print_peer p.id;
  multiaddrs = map pr.print_multiaddr p.addrs;
  gateway_url = p.gateway_url;
  sent = now;
}

-- The payload that goes to the topic; none: nothing is published.
unfoldable pub publish_heartbeat : Printing → Publisher → (now : ℕ) → Option Text
publish_heartbeat pr p now = pr.marshal (heartbeat_of pr p now)

-- What is printed can be read: an ID is its own text, an address too, and JSON keeps a heartbeat.
pub record IsReadable (out : Outside) (pr : Printing) : Type 0 where
  pub peer : (k : Text) → out.decode_peer (pr.print_peer k) ≡ some k
  pub multiaddr : (a : Text) → out.new_multiaddr (pr.print_multiaddr a) ≡ some a
  pub json :
      (hb : Heartbeat) (payload : Text)
      → pr.marshal hb ≡ some payload
      → out.unmarshal payload ≡ some hb

module _ (out : Outside) (pr : Printing) (readable : IsReadable out pr) where
  parse_multiaddrs-map : (xs : List Text) → parse_multiaddrs out (map pr.print_multiaddr xs) ≡ xs
  unfolding parse_multiaddrs
  parse_multiaddrs-map [] = refl
  parse_multiaddrs-map (a ∷ xs) =
      rw (readable.multiaddr a, parse_multiaddrs) (ap (◌∷◌ a) (parse_multiaddrs-map xs))

  take-map :
      (n : ℕ) (xs : List Text)
      → take n (map pr.print_multiaddr xs) ≡ map pr.print_multiaddr (take n xs)
  take-map zero xs = refl
  take-map (suc n) [] = refl
  take-map (suc n) (a ∷ xs) = ap (◌∷◌ (pr.print_multiaddr a)) (take-map n xs)

  length-printed : (xs : List Text) → length (map pr.print_multiaddr xs) ≡ length xs
  length-printed [] = refl
  length-printed (a ∷ xs) = ap suc (length-printed xs)

  capped-map :
      (xs : List Text) → capped (map pr.print_multiaddr xs) ≡ map pr.print_multiaddr (capped xs)
  capped-map xs = elim (Bool-cases (ltb mesh_max_multiaddrs (length xs))) [
    | inl many ↦ rw (length-printed xs) (rw many (take-map mesh_max_multiaddrs xs))
    | inr few ↦ rw (length-printed xs) (rw few refl)
  ]

  -- The entry that the heartbeat of a pinner makes.
  abbrev pub entry_of : Publisher → (sent now : ℕ) → MeshManager → MeshPeer
  entry_of p sent now m = record {
    addr_info = record { id = p.id; addrs = capped p.addrs };
    gateway_url = kept_gateway out m (heartbeat_of pr p sent);
    last_seen = now;
  }

  entered :
      (p : Publisher) (sent now : ℕ) (m : MeshManager)
      → peer_of out now m p.id (heartbeat_of pr p sent) ≡ entry_of p sent now m
  unfolding peer_of heartbeat_of
  entered p sent now m =
      rw (capped-map p.addrs, peer_of) (rw (parse_multiaddrs-map (capped p.addrs)) refl)

  honest : (p : Publisher) (sent : ℕ) → is_honest out p.id (heartbeat_of pr p sent) ≡ true
  unfolding is_honest heartbeat_of
  honest p sent = elim (Bool-cases (is_empty (pr.print_peer p.id))) [
    | inl e ↦ rw (e, is_honest) refl
    | inr e ↦ rw (e, readable.peer p.id, is_honest) (same_refl p.id)
  ]

  -- There is room for the sender, or it is known.
  abbrev pub has_room : MeshManager → Text → Bool
  has_room m sender = elim (find_peer sender m.peers) [
    | none ↦ ltb (length m.peers) mesh_max_peers
    | some known ↦ true
  ]

  -- If printed peer IDs, addresses and heartbeats can be read back, then the heartbeat that a
  -- pinner publishes, once another pinner receives it from that sender and has room or knows it,
  -- leaves the sender in its cache with its first eight addresses, its gateway if the guard accepts
  -- it, and the time of the message.
  pub handle-publish_heartbeat :
      (p : Publisher) (sent now : ℕ) (payload : Text) (m : MeshManager)
      → publish_heartbeat pr p sent ≡ some payload
      → is_own m p.id ≡ false
      → has_room m p.id ≡ true
      → find_peer p.id (handle out (message now p.id payload) m).peers
        ≡ some (entry_of p sent now m)
  unfolding publish_heartbeat handle
  handle-publish_heartbeat p sent now payload m e foreign room =
      let read = readable.json (heartbeat_of pr p sent) payload e in
      let found = find_peer-apply_heartbeat out now m p.id (heartbeat_of pr p sent) p.id in
      let admitted : (is_admitted out m p.id (heartbeat_of pr p sent) && same p.id p.id) ≡ true =
        rw (foreign, honest p sent, room, same_refl p.id) refl in
      rw (foreign, read, handle) (found ∙ rw admitted (ap some (entered p sent now m)))
