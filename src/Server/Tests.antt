-- ===== src/Server/Tests.antt =====
-- A server over an embedded node that has one pin, and the results applied to it.
use pevo_pinner.Prelude.{
  ℕ, suc, ◌-◌, ◌*◌, ◌+◌, Bool, ◌≤◌, ◌<◌, ◌≡◌, ◌↔◌, ◌⊎◌, refl, ◌||◌, true, false, Option, none, some,
  List, [], ◌∷◌, ◌++◌,
}
use pevo_pinner.Prelude.Int.{pos}
use pevo_pinner.Prelude.Text.{Text, codes, same, has, before}
use pevo_pinner.Cid.{validate_cid}
use pevo_pinner.Backend.{IpfsBackend, IsPinSet}
use pevo_pinner.Discovery.{DiscoveredItem}
use pevo_pinner.AutoPin.Rule.{AutoPinRule}
use pevo_pinner.AutoPin.Manager.{AutoPinManager, default_rule, Located, locate}
use pevo_pinner.Node.{gateway_guard, forwarded}
use pevo_pinner.Node.Tests.{cid, outside, no_faults, pinning}
use pevo_pinner.Node.Interface.{embedded_backend, embedded_backend-IsPinSet}
use pevo_pinner.Server.{
  Server, fails, write_json, report, deleted, embedded, handle_status, handle_pin,
}
use pevo_pinner.Server.Format.{second}
use pevo_pinner.Server.Status.{report_of, handle_status_lem}
use pevo_pinner.Server.Pins.{Handled, handle_pin_lem}
use pevo_pinner.Server.Proxy.{IsSentOn, handle_ipfs_proxy, handle_ipfs_proxy_lem}
use pevo_pinner.Server.Rules.{handle_delete_rule, Holds, Keeps, handle_delete_rule_lem}

abbrev pub backend : IpfsBackend
backend = embedded_backend (λ now. outside) (λ now. no_faults)

abbrev pub is_member : backend.State → Text → Bool
is_member n x = has x n.pins

abbrev pub set : IsPinSet backend is_member
set = embedded_backend-IsPinSet (λ now. outside) (λ now. no_faults)

abbrev paper : DiscoveredItem
paper = record {
  author = codes "ada";
  permlink = codes "engines";
  title = codes "On engines";
  cid = cid;
  filename = codes "paper.pdf";
  cid_type = codes "paper";
  discipline = codes "mathematics";
  created = 0;
}

abbrev manager : AutoPinManager
manager = record {
  rules = default_rule (codes "one") ∷ [];
  file_path = codes "rules.json";
  fs = λ p. none;
}

abbrev bind : Text
bind = codes "127.0.0.1:8081"

abbrev pub server : Server backend
server = record {
  discovery = record { items = paper ∷ [] };
  backend = pinning;
  autopin = manager;
  start_time = 0;
  refresh = pos (60 * second);
  auto_pin_concurrency = pos 4;
  auto_pin_author_cap = pos 50;
  mode = codes "embedded";
  kind = embedded bind;
}

abbrev pub encode : List AutoPinRule → Option Text
encode rs = some (codes "rules")

abbrev pub decode : Text → Option (List AutoPinRule)
decode bytes = none

abbrev pub split : Text → Option (Text × Text)
split host = some (before b':' host, codes "8081")

handle_status_lem_example :
    (left : ℕ) × (0 < left)
    × (left ≤ suc (60 * second - 1))
    × ((refreshes : ℕ) × (90 * second - server.start_time + left
          ≡ suc (60 * second - 1) * refreshes))
    × (handle_status backend 0 (90 * second) server
        ≡ some (server, write_json (report (report_of backend is_member set server left))))
handle_status_lem_example =
    handle_status_lem backend is_member set 0 (90 * second) (60 * second - 1) server refl

handle_pin_lem_example :
    Handled backend is_member set cid server
      (codes "pinned")
      (λ x. same cid x || is_member server.backend x)
      (handle_pin backend 0 cid server)
handle_pin_lem_example = handle_pin_lem backend is_member set 0 cid server

abbrev raw : Text
raw = cid ++ codes "/figures/1.png"

handle_ipfs_proxy_lem_example :
    ((validate_cid (before b'/' raw) ≡ false)
      × (handle_ipfs_proxy backend split (codes "localhost:8080") raw server ≡ fails 400))
    ⊎ ((validate_cid (before b'/' raw) ≡ true)
        × IsSentOn split bind
            (codes "localhost:8080")
            raw
            (handle_ipfs_proxy backend split (codes "localhost:8080") raw server)
        × ((gateway_guard pinning (codes "/ipfs/" ++ raw) ≡ forwarded)
            ↔ (has (before b'/' raw) pinning.pins ≡ true)))
handle_ipfs_proxy_lem_example =
    handle_ipfs_proxy_lem split backend bind (codes "localhost:8080") raw server pinning refl

abbrev pub draft : AutoPinRule
draft = default_rule []

handle_delete_rule_lem_example :
    let p = handle_delete_rule backend encode decode no_faults (codes "one") server in
    ((locate (codes "one") server.autopin.rules ≡ none) × (p ≡ (server, fails 404)))
    ⊎ ((l : Located) × (locate (codes "one") server.autopin.rules ≡ some l)
        × (((p.1 ≡ write_json deleted)
              × Holds backend encode decode no_faults (l.front ++ l.behind) p.0)
            ⊎ ((p.1 ≡ fails 404)
                × Keeps backend encode decode no_faults (l.front ++ l.behind) server.autopin p.0)))
handle_delete_rule_lem_example =
    handle_delete_rule_lem backend encode decode no_faults (codes "one") server
