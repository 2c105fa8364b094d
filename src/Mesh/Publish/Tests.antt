-- ===== src/Mesh/Publish/Tests.antt =====
-- A text format for heartbeats that can be read back, and what one pinner learns from another by it.
use pevo_pinner.Prelude.{
  ℕ, ◌≡◌, refl, Option, none, some, List, [], ◌∷◌, ◌++◌, length, take, drop, take-length-append,
  drop-length-append,
}
use pevo_pinner.Prelude.Text.{Text, codes, same}
use pevo_pinner.Mesh.{Heartbeat, Outside, message, find_peer, handle}
use pevo_pinner.Mesh.Tests.{toy_outside, empty_mesh}
use pevo_pinner.Mesh.Publish.{
  Publisher, Printing, IsReadable, heartbeat_of, publish_heartbeat, entry_of,
  handle-publish_heartbeat,
}

abbrev written : (peer gateway : Text) → ℕ → Text → Text
written peer gateway sent addr = sent ∷ length peer ∷ (peer ++ length gateway ∷ (gateway ++ addr))

-- Only heartbeats with one address are written.
unfoldable write_fields : (peer gateway : Text) → ℕ → List Text → Option Text
write_fields peer gateway sent [] = none
write_fields peer gateway sent (a ∷ []) = some (written peer gateway sent a)
write_fields peer gateway sent (a ∷ b ∷ xs) = none

abbrev marshal : Heartbeat → Option Text
marshal hb = write_fields hb.peer_id hb.gateway_url hb.sent hb.multiaddrs

abbrev read_gateway : (peer : Text) → ℕ → Text → Option Heartbeat
read_gateway peer sent [] = none
read_gateway peer sent (n ∷ s) =
    some
      (record { peer_id = peer; multiaddrs = drop n s ∷ []; gateway_url = take n s; sent = sent })

unfoldable unmarshal : Text → Option Heartbeat
unmarshal [] = none
unmarshal (sent ∷ []) = none
unmarshal (sent ∷ n ∷ s) = read_gateway (take n s) sent (drop n s)

read_back :
    (peer gateway : Text) (sent : ℕ) (xs : List Text) (payload : Text)
    → write_fields peer gateway sent xs ≡ some payload
    → unmarshal payload
      ≡ some (record { peer_id = peer; multiaddrs = xs; gateway_url = gateway; sent = sent })
unfolding write_fields unmarshal
read_back peer gateway sent [] payload e = cc
read_back peer gateway sent (a ∷ b ∷ xs) payload e = cc
read_back peer gateway sent (a ∷ []) payload e =
    let same_text : written peer gateway sent a ≡ payload = cc in
    rw (← same_text) (
      rw
        (
          take-length-append peer (length gateway ∷ (gateway ++ a)),
          drop-length-append peer (length gateway ∷ (gateway ++ a)),
        )
        (rw (take-length-append gateway a, drop-length-append gateway a) refl))

abbrev outside : Outside
outside = record toy_outside { unmarshal = unmarshal }

abbrev printing : Printing
printing = record { print_peer = λ k. k; print_multiaddr = λ a. a; marshal = marshal }

readable : IsReadable outside printing
readable = record {
  peer = λ k. refl;
  multiaddr = λ a. refl;
  json = λ hb payload e. read_back hb.peer_id hb.gateway_url hb.sent hb.multiaddrs payload e;
}

abbrev publisher : Publisher
publisher = record { id = codes "a"; addrs = codes "addr" ∷ []; gateway_url = codes "gw" }

abbrev payload : Text
payload = written (codes "a") (codes "gw") 7 (codes "addr")

handle-publish_heartbeat_example :
    find_peer (codes "a") (handle outside (message 9 (codes "a") payload) empty_mesh).peers
    ≡ some (entry_of outside printing readable publisher 7 9 empty_mesh)
unfolding publish_heartbeat heartbeat_of write_fields same find_peer
handle-publish_heartbeat_example =
    handle-publish_heartbeat outside printing readable publisher 7 9 payload empty_mesh refl refl
      refl
