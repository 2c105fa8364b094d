-- ===== src/Fetch/Url.antt =====
-- `net/url` as the sources use it, and ipfsnode_fetch.go: normalizeFallbackURL.
use pevo_pinner.Prelude.{Bool, Option, none, some, [], ◌∷◌, ◌==◌, if◌then◌else◌}
use pevo_pinner.Prelude.Text.{Text, is_empty}

-- `url.URL`. `untouched` stands for the fields that the code neither reads nor writes.
pub record Url : Type 0 where
  pub scheme : Text
  pub has_user : Bool
  pub host : Text
  pub path : Text
  pub raw_query : Text
  pub fragment : Text
  pub untouched : Text

-- What the code takes from `net/url` and `strings`: `Parse` (none: an error), `String`, `Hostname`,
-- `ToLower` and `TrimSpace`.
pub record UrlPackage : Type 0 where
  pub parse : Text → Option Url
  pub print : Url → Text
  pub hostname : Url → Text
  pub lower : Text → Text
  pub trim_space : Text → Text

-- `strings.TrimRight(s, "/")`
unfoldable pub trim_right_slashes : Text → Text
trim_right_slashes [] = []
trim_right_slashes (c ∷ s) =
    let rest = trim_right_slashes s in
    if is_empty rest then (if c == b'/' then [] else c ∷ []) else c ∷ rest

-- The four assignments that both normalisations make.
abbrev pub normalized : UrlPackage → Url → Url
normalized pkg u = record u {
  host = pkg.lower u.host;
  path = trim_right_slashes u.path;
  fragment = [];
  raw_query = [];
}

unfoldable pub normalize_fallback_url : UrlPackage → Text → Text
normalize_fallback_url pkg raw =
    if is_empty raw
    then []
    else elim (pkg.parse (pkg.trim_space raw)) [ none ↦ [] | some u ↦ pkg.print (normalized pkg u) ]
