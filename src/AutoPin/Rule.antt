-- ===== src/AutoPin/Rule.antt =====
-- autopin.go: `AutoPinRule`, `Matches` and `containsCI`. `strings.ToLower` and the date format
-- `2006-01-02` of `time.Parse` are arguments; `parse_date` is none on an error. Instants are
-- nanoseconds, as for `Created`.
use pevo_pinner.Prelude.{
  ℕ, ◌+◌, Bool, true, false, not, ◌&&◌, Option, none, some, List, [], ◌∷◌, ltb, if◌then◌else◌,
}
use pevo_pinner.Prelude.Text.{Text, is_empty, same, strip_prefix}
use pevo_pinner.Discovery.{DiscoveredItem}

pub record AutoPinRule : Type 0 where
  pub id : Text
  pub name : Text
  pub enabled : Bool
  pub disciplines : List Text
  pub authors : List Text
  pub cid_types : List Text
  pub title_pattern : Text
  pub created_after : Text
  pub created_before : Text

-- `AddDate(0, 0, 1)` on a UTC midnight adds 24 hours.
abbrev pub day : ℕ
day = 86_400_000_000_000

abbrev pub is_some {ℓ} : {A : Type ℓ} → Option A → Bool
is_some none = false
is_some (some a) = true

-- `strings.Contains(s, substr)`
unfoldable pub contains_text : Text → Text → Bool
unfolding strip_prefix
contains_text [] sub = is_empty sub
contains_text (c ∷ s) sub = if is_some (strip_prefix sub (c ∷ s)) then true else contains_text s sub

module _ (lower : Text → Text) where
  -- The loop of `containsCI`, with the needle in lower case.
  contains_lower : List Text → Text → Bool
  contains_lower [] n = false
  contains_lower (s ∷ ss) n = if same (lower s) n then true else contains_lower ss n

  unfoldable pub contains_ci : List Text → Text → Bool
  unfolding contains_lower same
  contains_ci haystack needle = contains_lower haystack (lower needle)

  -- `len(listed) > 0 && !containsCI(listed, value)`
  unfoldable pub excludes : List Text → Text → Bool
  unfolding contains_ci
  excludes listed value = not (is_empty listed) && not (contains_ci listed value)

  -- `pattern != "" && !strings.Contains(strings.ToLower(title), strings.ToLower(pattern))`
  unfoldable pub title_excludes : Text → Text → Bool
  unfolding contains_text
  title_excludes pattern_text title =
      not (is_empty pattern_text) && not (contains_text (lower title) (lower pattern_text))

module _ (parse_date : Text → Option ℕ) where
  -- A lower bound is set, `err == nil` and `item.Created.Before(t)`.
  unfoldable pub too_old : Text → ℕ → Bool
  too_old bound created =
      not (is_empty bound) && elim (parse_date bound) [ none ↦ false | some t ↦ ltb created t ]

  -- An upper bound is set, `err == nil` and `!item.Created.Before(t.AddDate(0, 0, 1))`.
  unfoldable pub too_new : Text → ℕ → Bool
  too_new bound created =
      not (is_empty bound)
      && elim (parse_date bound) [ none ↦ false | some t ↦ not (ltb created (t + day)) ]

module _ (lower : Text → Text) (parse_date : Text → Option ℕ) where
  unfoldable pub matches : AutoPinRule → DiscoveredItem → Bool
  matches r item =
      if not r.enabled
      then false
      else (if excludes lower r.disciplines item.discipline
          then false
          else (if excludes lower r.authors item.author
              then false
              else (if excludes lower r.cid_types item.cid_type
                  then false
                  else (if title_excludes lower r.title_pattern item.title
                      then false
                      else (if too_old parse_date r.created_after item.created
                          then false
                          else (if too_new parse_date r.created_before item.created
                              then false
                              else true))))))

  -- The inner loop of `MatchingItems`, up to its `break`.
  unfoldable pub any_matches : List AutoPinRule → DiscoveredItem → Bool
  any_matches [] item = false
  any_matches (r ∷ rs) item = if matches r item then true else any_matches rs item

  unfoldable pub matching_items : List AutoPinRule → List DiscoveredItem → List DiscoveredItem
  unfolding any_matches
  matching_items rules [] = []
  matching_items rules (item ∷ items) =
      if any_matches rules item
      then item ∷ matching_items rules items
      else matching_items rules items
