-- ===== src/AutoPin/Tests.antt =====
-- autopin.go: concrete rules, a concrete encoding of two rule sets, and the theorems there.
use pevo_pinner.Prelude.{
  ℕ, ◌+◌, ◌≡◌, refl, sym, ap, ◌⊎◌, ◌↔◌, true, false, Option, none, some, List, [], ◌∷◌, ◌++◌, map,
  take, ◌*◌, if◌then◌else◌, arith,
}
use native.Mathlib.Decide.{ℕ_discrete}
use pevo_pinner.Prelude.Text.{Text, codes, same, has, IsDistinct}
use pevo_pinner.Discovery.{DiscoveredItem}
use pevo_pinner.Cid.{between}
use pevo_pinner.AtomicFile.{Faults, update, apply_all, atomic_write_calls}
use pevo_pinner.AutoPin.Rule.{
  AutoPinRule, contains_text, excludes, title_excludes, too_old, too_new, matches, matching_items,
  day,
}
use pevo_pinner.AutoPin.Matching.{Satisfies, matches_iff}
use pevo_pinner.AutoPin.Manager.{
  AutoPinManager, ok, Located, locate, default_rule, add_rule, new_auto_pin_manager,
}
use pevo_pinner.AutoPin.Persistence.{IsSynced, Untouched, add_rule_atomic}
use pevo_pinner.AutoPin.Restart.{RoundTrips, crash_restart}
use pevo_pinner.AutoPin.Identity.{ids}

-- `strings.ToLower` on ASCII.
abbrev lower : Text → Text
lower = map (λ c. if between b'A' b'Z' c then c + 32 else c)

-- A date parser that knows one day, the tenth after the epoch.
abbrev parse_date : Text → Option ℕ
parse_date s = if same s (codes "1970-01-11") then some (10 * day) else none

abbrev bees : AutoPinRule
bees = record (default_rule (codes "r1")) {
  disciplines = codes "Biology" ∷ [];
  title_pattern = codes "BEE";
  created_before = codes "1970-01-11";
}

abbrev off : AutoPinRule
off = record (default_rule (codes "r2")) { enabled = false }

abbrev paper : DiscoveredItem
paper = record {
  author = codes "ann";
  permlink = codes "p1";
  title = codes "On bees";
  cid = codes "Qm";
  filename = [];
  cid_type = codes "paper";
  discipline = codes "biology";
  created = 10 * day + 5;
}

matching :
    (matches lower parse_date bees paper ≡ true)
    × (matches lower parse_date bees (record paper { created = 11 * day }) ≡ false)
    × (matching_items lower parse_date (off ∷ bees ∷ []) (paper ∷ []) ≡ paper ∷ [])
unfolding matching_items matches contains_text same excludes title_excludes too_old too_new
matching = (refl, refl, refl)

matches_iff_example :
    (matches lower parse_date bees paper ≡ true) ↔ Satisfies lower parse_date bees paper
matches_iff_example = matches_iff lower parse_date bees paper

-- An encoding of two rule sets.
abbrev both : List AutoPinRule
both = bees ∷ off ∷ []

abbrev single : List AutoPinRule
single = bees ∷ []

rules_discrete : Discrete (List AutoPinRule)
rules_discrete = hlevel ℕ_discrete

abbrev encode_from : (rs : List AutoPinRule) → Dec (rs ≡ both) → Dec (rs ≡ single) → Option Text
encode_from rs (yes e) d = some (codes "2")
encode_from rs (no n) (yes e) = some (codes "1")
encode_from rs (no n) (no k) = none

abbrev encode : List AutoPinRule → Option Text
encode rs = encode_from rs (rules_discrete rs both) (rules_discrete rs single)

abbrev decode : Text → Option (List AutoPinRule)
decode s =
    if same s (codes "2") then some both else (if same s (codes "1") then some single else none)

decode-codes : (decode (codes "2") ≡ some both) × (decode (codes "1") ≡ some single)
unfolding same
decode-codes = (refl, refl)

decode-encode_from :
    (rs : List AutoPinRule) (bytes : Text) (d : Dec (rs ≡ both)) (d' : Dec (rs ≡ single))
    → encode_from rs d d' ≡ some bytes
    → decode bytes ≡ some rs
decode-encode_from rs bytes (yes e) d' h =
    let b : codes "2" ≡ bytes = ground (arith, h) in rw (← b) (rw decode-codes.0 (ap some (sym e)))
decode-encode_from rs bytes (no n) (yes e) h =
    let b : codes "1" ≡ bytes = ground (arith, h) in rw (← b) (rw decode-codes.1 (ap some (sym e)))
decode-encode_from rs bytes (no n) (no k) h = cc

trips : RoundTrips encode decode
trips rs bytes = decode-encode_from rs bytes (rules_discrete rs both) (rules_discrete rs single)

encode_both :
    (d : Dec (both ≡ both)) (d' : Dec (both ≡ single)) → encode_from both d d' ≡ some (codes "2")
encode_both (yes e) d' = refl
encode_both (no n) d' = absurd (n refl)

encode_single :
    (d : Dec (single ≡ both)) (d' : Dec (single ≡ single))
    → encode_from single d d' ≡ some (codes "1")
encode_single (yes e) d' = absurd (cc e)
encode_single (no n) (yes e) = refl
encode_single (no n) (no k) = absurd (k refl)

abbrev path : Text
path = codes "autopin.json"

abbrev manager : AutoPinManager
manager = record { rules = both; file_path = path; fs = update (λ p. none) path (some (codes "2")) }

manager-IsSynced : IsSynced encode decode manager
unfolding same
manager-IsSynced =
    (codes "2", encode_both (rules_discrete both both) (rules_discrete both single), refl)

abbrev no_faults : Faults
no_faults = record {
  open_fails = false;
  write_fails = false;
  written = 0;
  sync_fails = false;
  close_fails = false;
  rename_fails = false;
  remove_fails = false;
}

abbrev at_off : Located
at_off = record { front = single; found = off; behind = [] }

located : locate (codes "r2") both ≡ some at_off
unfolding locate
located = refl

add_rule_atomic_example :
    let p = add_rule encode decode no_faults (codes "r3") off manager in
    (p.1 ≡ ok (record off { id = codes "r3" }))
      × (p.0.rules ≡ both ++ record off { id = codes "r3" } ∷ [])
      × IsSynced encode decode p.0
    ⊎ Untouched encode decode manager p
add_rule_atomic_example = add_rule_atomic encode decode no_faults (codes "r3") off manager

crash_restart_example :
    let fs = apply_all (take 2 (atomic_write_calls no_faults path (codes "1")).0) manager.fs in
    let restarted = new_auto_pin_manager encode decode no_faults false [] path fs in
    (restarted ≡ (fs, ok (record manager { fs = fs })))
    ⊎ (restarted ≡ (fs, ok (record manager { rules = single; fs = fs })))
crash_restart_example =
    crash_restart encode decode 2 no_faults no_faults [] (codes "1") manager single trips
      manager-IsSynced (encode_single (rules_discrete single both) (rules_discrete single single))

distinct : IsDistinct (ids both)
unfolding has same
distinct = (refl, (refl, tt))
