-- ===== src/Server.antt =====
-- server.go: the handlers of the management API over any backend, from the request as the mux has
-- taken it apart. The texts of error messages are left out. `Run` of the runner, the time and the JSON
-- decoder are arguments; a JSON body that cannot be decoded is none.
pub mod Format
pub mod Status
pub mod Pins
pub mod Proxy
pub mod Rules
pub mod Routes
pub mod Serve
pub mod Tests
use pevo_pinner.Prelude.{
  ℕ, zero, suc, ◌+◌, ◌-◌, ◌%◌, Bool, true, false, not, Option, none, some, List, [], ◌∷◌, ◌++◌,
  length, if◌then◌else◌,
}
use pevo_pinner.Prelude.Int.{ℤ, pos, negsuc}
use pevo_pinner.Prelude.Text.{Text, codes, is_empty, before}
use pevo_pinner.Cid.{validate_cid}
use pevo_pinner.AtomicFile.{Faults}
use pevo_pinner.Discovery.{DiscoveredItem, Discovery}
use pevo_pinner.AutoPin.Rule.{AutoPinRule, matching_items}
use pevo_pinner.AutoPin.Manager.{
  AutoPinManager, Result, ok, err, rules_of, add_rule, update_rule, delete_rule, set_all_enabled,
}
use pevo_pinner.Runner.{AutoPinResult}
use pevo_pinner.Backend.{IpfsBackend}
use Format.{format_duration}

pub record PaperResponse : Type 0 where
  pub author : Text
  pub permlink : Text
  pub title : Text
  pub cid : Text
  pub filename : Text
  pub cid_type : Text
  pub discipline : Text
  pub created : ℕ
  pub pinned : Bool

-- The field `refresh_interval` is the duration itself; the source has its text.
pub record StatusResponse : Type 0 where
  pub total_discovered : ℕ
  pub pinned_count : ℕ
  pub next_refresh : Text
  pub mode : Text
  pub refresh_interval : ℤ
  pub auto_pin_concurrency : ℤ
  pub auto_pin_author_cap : ℤ

-- The type of the backend, which the code asks for, with the `gatewayBind` of an embedded node.
pub data BackendKind : Type 0 where
  embedded : (gateway_bind : Text) → BackendKind
  pinata : BackendKind
  other : BackendKind

unfoldable pub backend_mode : BackendKind → Text
backend_mode (embedded bind) = codes "embedded"
backend_mode pinata = codes "pinata"
backend_mode other = codes "unknown"

-- What a handler writes.
pub data Body : Type 0 where
  error : Body
  papers : List PaperResponse → Body
  pin_status : (status cid : Text) → Body
  counts : AutoPinResult → Body
  report : StatusResponse → Body
  rules : List AutoPinRule → Body
  rule : AutoPinRule → Body
  deleted : Body
  location : Text → Body

pub record Response : Type 0 where
  pub status : ℕ
  pub body : Body

abbrev pub fails : ℕ → Response
fails code = record { status = code; body = error }

abbrev pub write_json : Body → Response
write_json body = record { status = 200; body = body }

-- The text is the one that http.Redirect is given.
abbrev pub redirect : Text → Response
redirect to = record { status = 307; body = location to }

pub record Server (b : IpfsBackend) : Type 0 where
  pub discovery : Discovery
  pub backend : b.State
  pub autopin : AutoPinManager
  pub start_time : ℕ
  pub refresh : ℤ
  pub auto_pin_concurrency : ℤ
  pub auto_pin_author_cap : ℤ
  pub mode : Text
  pub kind : BackendKind

unfoldable pub new_server :
    (b : IpfsBackend)
    → Discovery
    → BackendKind
    → b.State
    → AutoPinManager
    → (refresh concurrency author_cap : ℤ) → (now : ℕ) → Server b
unfolding backend_mode
new_server b d kind backend autopin refresh concurrency author_cap now = record {
  discovery = d;
  backend = backend;
  autopin = autopin;
  start_time = now;
  refresh = refresh;
  auto_pin_concurrency = concurrency;
  auto_pin_author_cap = author_cap;
  mode = backend_mode kind;
  kind = kind;
}

-- `pinned, _ := …`
abbrev pub or_false : Option Bool → Bool
or_false none = false
or_false (some pinned) = pinned

abbrev pub paper_of : DiscoveredItem → Bool → PaperResponse
paper_of item pinned = record {
  author = item.author;
  permlink = item.permlink;
  title = item.title;
  cid = item.cid;
  filename = item.filename;
  cid_type = item.cid_type;
  discipline = item.discipline;
  created = item.created;
  pinned = pinned;
}

-- `s.refresh - (elapsed % s.refresh)`, where the remainder has the sign of `elapsed`; none: a
-- division by zero.
unfoldable pub remaining : (refresh : ℤ) → (elapsed : ℕ) → Option ℤ
remaining (pos zero) elapsed = none
remaining (pos (suc n)) elapsed = some (pos (suc n - elapsed % suc n))
remaining (negsuc n) elapsed = some (negsuc (n + elapsed % suc n))

module _ (b : IpfsBackend) where
  unfoldable pub paper_loop :
      (call : ℕ) → List DiscoveredItem → b.State → b.State × List PaperResponse
  paper_loop call [] s = (s, [])
  paper_loop call (item ∷ items) s =
      let asked = b.is_pinned call item.cid s in
      let rest = paper_loop (suc call) items asked.0 in
      (rest.0, paper_of item (or_false asked.1) ∷ rest.1)

  unfoldable pub handle_papers : (call : ℕ) → Server b → Server b × Response
  unfolding paper_loop
  handle_papers call s =
      let listed = paper_loop call s.discovery.items s.backend in
      (record s { backend = listed.0 }, write_json (papers listed.1))

  unfoldable pub handle_pin : (call : ℕ) → (cid : Text) → Server b → Server b × Response
  handle_pin call cid s =
      if is_empty cid
      then (s, fails 400)
      else (if validate_cid cid
          then (let done = b.pin call cid s.backend in
              (
                record s { backend = done.0 },
                if done.1 then write_json (pin_status (codes "pinned") cid) else fails 500,
              ))
          else (s, fails 400))

  unfoldable pub handle_unpin : (call : ℕ) → (cid : Text) → Server b → Server b × Response
  handle_unpin call cid s =
      if is_empty cid
      then (s, fails 400)
      else (if validate_cid cid
          then (let done = b.unpin call cid s.backend in
              (
                record s { backend = done.0 },
                if done.1 then write_json (pin_status (codes "unpinned") cid) else fails 500,
              ))
          else (s, fails 400))

  -- What a call of `Run` does to the backend, and what it returns.
  abbrev pub RunOf : Type 0
  RunOf = List DiscoveredItem → b.State → b.State × AutoPinResult

  unfoldable pub handle_pin_all : RunOf → Server b → Server b × Response
  handle_pin_all run s =
      let res = run s.discovery.items s.backend in
      (record s { backend = res.0 }, write_json (counts res.1))

  unfoldable pub count_loop :
      (call : ℕ) → List DiscoveredItem → (pinned_count : ℕ) → b.State → b.State × ℕ
  count_loop call [] pinned_count s = (s, pinned_count)
  count_loop call (item ∷ items) pinned_count s =
      let asked = b.is_pinned call item.cid s in
      count_loop (suc call) items (if or_false asked.1 then suc pinned_count else pinned_count)
        asked.0

  -- none: the handler panics.
  unfoldable pub handle_status : (call now : ℕ) → Server b → Option (Server b × Response)
  handle_status call now s =
      let counted = count_loop call s.discovery.items 0 s.backend in
      elim (remaining s.refresh (now - s.start_time)) [
        | none ↦ none
        | some left ↦ some (
          record s { backend = counted.0 },
          write_json (
              report (record {
                total_discovered = length s.discovery.items;
                pinned_count = counted.1;
                next_refresh = format_duration left;
                mode = s.mode;
                refresh_interval = s.refresh;
                auto_pin_concurrency = s.auto_pin_concurrency;
                auto_pin_author_cap = s.auto_pin_author_cap;
              })),
        )
      ]
