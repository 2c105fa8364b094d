-- ===== src/AutoPin/Matching.antt =====
-- autopin.go: what it means for an item to match a rule, and which items are selected.
use pevo_pinner.Prelude.{
  ℕ, ◌+◌, ◌≤◌, ◌<◌, ◌≡◌, refl, ap, ◌≢◌, ◌↔◌, ◌⊎◌, inl, inr, true, false, Option, some, List, [],
  ◌∷◌, ◌++◌, All, Bool-cases, Option-cases, arith,
}
use pevo_pinner.Prelude.Text.{Text, same_iff, strip_prefix}
use pevo_pinner.Prelude.Text.{strip_prefix_sound, strip_prefix-append}
use pevo_pinner.Discovery.{DiscoveredItem}
use pevo_pinner.AutoPin.Rule.{
  AutoPinRule, day, contains_text, contains_ci, excludes, title_excludes, too_old, too_new, matches,
  any_matches, matching_items,
}

-- Some member of the list satisfies `P`.
abbrev pub Any {ℓ} : {A : Type ℓ} → (A → Type 0) → List A → Type 0
Any P [] = ⊥
Any P (x ∷ xs) = P x ⊎ Any P xs

-- `sub` stands somewhere in `s`.
abbrev pub Within : Text → Text → Type 0
Within sub s = (pre : Text) × (post : Text) × (s ≡ pre ++ (sub ++ post))

contains_text_sound : (s sub : Text) → contains_text s sub ≡ true → Within sub s
unfolding contains_text
contains_text_sound [] [] h = ([], [], refl)
contains_text_sound [] (c ∷ sub) h = cc
contains_text_sound (c ∷ s) sub h = elim (Option-cases (strip_prefix sub (c ∷ s))) [
  | inl miss ↦
      let (pre, post, e) = contains_text_sound s sub (rw (miss, contains_text) at h) in
      (c ∷ pre, post, ap (◌∷◌ c) e)
  | inr (post, hit) ↦ ([], post, strip_prefix_sound sub (c ∷ s) post hit)
]

contains_text_complete : (pre sub post : Text) → contains_text (pre ++ (sub ++ post)) sub ≡ true
unfolding contains_text
contains_text_complete [] [] [] = refl
contains_text_complete [] [] (c ∷ post) = refl
contains_text_complete [] (x ∷ sub) post =
    rw (strip_prefix-append (x ∷ sub) post, contains_text) refl
contains_text_complete (c ∷ pre) sub post =
    elim (Option-cases (strip_prefix sub (c ∷ (pre ++ (sub ++ post))))) [
      | inl miss ↦ rw (miss, contains_text) (contains_text_complete pre sub post)
      | inr (rest, hit) ↦ rw (hit, contains_text) refl
    ]

-- The list is empty or holds the value, up to case.
abbrev pub Allows : (Text → Text) → List Text → Text → Type 0
Allows lower listed value = (listed ≡ []) ⊎ Any (λ s. lower s ≡ lower value) listed

module _ (lower : Text → Text) where
  contains_ci_iff :
      (listed : List Text) (value : Text)
      → (contains_ci lower listed value ≡ true) ↔ Any (λ s. lower s ≡ lower value) listed
  unfolding contains_ci
  contains_ci_iff [] value = ground arith
  contains_ci_iff (s ∷ listed) value =
      ground (arith, same_iff (lower s) (lower value), contains_ci_iff listed value)

  excludes_iff :
      (listed : List Text) (value : Text)
      → (excludes lower listed value ≡ false) ↔ Allows lower listed value
  unfolding excludes
  excludes_iff [] value = (λ e. inl refl, λ a. refl)
  excludes_iff (s ∷ listed) value =
      let (to, from) = contains_ci_iff (s ∷ listed) value in
      (λ e. inr (to (ground arith)), λ a. elim a [ inl bad ↦ cc | inr h ↦ rw (from h) ])

  title_excludes_iff :
      (p title : Text)
      → (title_excludes lower p title ≡ false) ↔ ((p ≡ []) ⊎ Within (lower p) (lower title))
  unfolding title_excludes
  title_excludes_iff [] title = (λ e. inl refl, λ a. refl)
  title_excludes_iff (c ∷ p) title = (
    λ e. inr (contains_text_sound (lower title) (lower (c ∷ p)) (ground arith)),
    λ a. elim a [
      | inl bad ↦ cc
      | inr (pre, post, h) ↦ rw h (rw (contains_text_complete pre (lower (c ∷ p)) post))
    ],
  )

module _ (parse_date : Text → Option ℕ) where
  too_old_iff :
      (bound : Text) (created : ℕ)
      → (too_old parse_date bound created ≡ false)
        ↔ ((t : ℕ) → bound ≢ [] → parse_date bound ≡ some t → t ≤ created)
  unfolding too_old
  too_old_iff [] created = (λ e t ne h. absurd (ne refl), λ g. refl)
  too_old_iff (c ∷ bound) created = elim (Option-cases (parse_date (c ∷ bound))) [
    | inl missing ↦ (λ e t ne h. cc, λ g. rw missing refl)
    | inr (d, found) ↦
        (λ e t ne h. ground (arith, found, h), λ g. ground (arith, found, g d (λ e. cc) found))
  ]

  too_new_iff :
      (bound : Text) (created : ℕ)
      → (too_new parse_date bound created ≡ false)
        ↔ ((t : ℕ) → bound ≢ [] → parse_date bound ≡ some t → created < t + day)
  unfolding too_new
  too_new_iff [] created = (λ e t ne h. absurd (ne refl), λ g. refl)
  too_new_iff (c ∷ bound) created = elim (Option-cases (parse_date (c ∷ bound))) [
    | inl missing ↦ (λ e t ne h. cc, λ g. rw missing refl)
    | inr (d, found) ↦
        (λ e t ne h. ground (arith, found, h), λ g. ground (arith, found, g d (λ e. cc) found))
  ]

module _ (lower : Text → Text) (parse_date : Text → Option ℕ) where
  -- What a rule asks of an item: all of its non-empty filters, with the two dates inclusive; a date
  -- that cannot be parsed asks nothing.
  pub record Satisfies (r : AutoPinRule) (item : DiscoveredItem) : Type 0 where
    pub enabled : r.enabled ≡ true
    pub discipline : Allows lower r.disciplines item.discipline
    pub author : Allows lower r.authors item.author
    pub cid_type : Allows lower r.cid_types item.cid_type
    pub title : (r.title_pattern ≡ []) ⊎ Within (lower r.title_pattern) (lower item.title)
    pub after :
        (t : ℕ) → r.created_after ≢ [] → parse_date r.created_after ≡ some t → t ≤ item.created
    pub before :
        (t : ℕ)
        → r.created_before ≢ []
        → parse_date r.created_before ≡ some t
        → item.created < t + day

  matches_ladder :
      (r : AutoPinRule) (item : DiscoveredItem)
      → (matches lower parse_date r item ≡ true) ↔ (
          (r.enabled ≡ true)
          × (excludes lower r.disciplines item.discipline ≡ false)
          × (excludes lower r.authors item.author ≡ false)
          × (excludes lower r.cid_types item.cid_type ≡ false)
          × (title_excludes lower r.title_pattern item.title ≡ false)
          × (too_old parse_date r.created_after item.created ≡ false)
          × (too_new parse_date r.created_before item.created ≡ false))
  unfolding matches
  matches_ladder r item = ground arith

  -- For any lower-casing function and any date parser, Matches accepts an item exactly when the
  -- rule is enabled, each non-empty list of the rule holds the value of the item up to case, the
  -- title contains the pattern up to case, and the item is not before the first day and is before
  -- the end of the last day, where a date that is set and can be parsed counts.
  pub matches_iff :
      (r : AutoPinRule) (item : DiscoveredItem)
      → (matches lower parse_date r item ≡ true) ↔ Satisfies r item
  matches_iff r item =
      let (to, from) = matches_ladder r item in
      let discipline = excludes_iff lower r.disciplines item.discipline in
      let author = excludes_iff lower r.authors item.author in
      let cid_type = excludes_iff lower r.cid_types item.cid_type in
      let title = title_excludes_iff lower r.title_pattern item.title in
      let old = too_old_iff parse_date r.created_after item.created in
      let new = too_new_iff parse_date r.created_before item.created in
      (
        λ h.
            let (e, d, a, c, p, o, n) = to h in
            record {
              enabled = e;
              discipline = discipline.0 d;
              author = author.0 a;
              cid_type = cid_type.0 c;
              title = title.0 p;
              after = old.0 o;
              before = new.0 n;
            },
        λ s. from (
          s.enabled,
          discipline.1 s.discipline,
          author.1 s.author,
          cid_type.1 s.cid_type,
          title.1 s.title,
          old.1 s.after,
          new.1 s.before,
        ),
      )

  any_matches_iff :
      (rules : List AutoPinRule) (item : DiscoveredItem)
      → (any_matches lower parse_date rules item ≡ true) ↔ Any (λ r. Satisfies r item) rules
  unfolding any_matches
  any_matches_iff [] item = (λ e. cc, λ a. absurd a)
  any_matches_iff (r ∷ rules) item = elim (Bool-cases (matches lower parse_date r item)) [
    | inl hit ↦ (λ e. inl ((matches_iff r item).0 hit), λ a. rw hit)
    | inr miss ↦
        let (to, from) = any_matches_iff rules item in
        (
          λ e. inr (to (rw miss at e)),
          λ a. elim a [
            | inl s ↦ ground (arith, miss, (matches_iff r item).1 s)
            | inr h ↦ rw miss (from h)
          ],
        )
  ]

  -- The selection keeps, in order, the items that satisfy some rule, and only those.
  pub data Selects (rules : List AutoPinRule)
      : List DiscoveredItem → List DiscoveredItem → Type 0 where
    none_left : Selects rules [] []
    taken :
        (i : DiscoveredItem) {is os : List DiscoveredItem}
        → Any (λ r. Satisfies r i) rules
        → Selects rules is os
        → Selects rules (i ∷ is) (i ∷ os)
    passed_over :
        (i : DiscoveredItem) {is os : List DiscoveredItem}
        → ¬ Any (λ r. Satisfies r i) rules
        → Selects rules is os
        → Selects rules (i ∷ is) os

  -- MatchingItems keeps, in their order, the items that satisfy some rule, and leaves out the items
  -- that satisfy none.
  pub matching_items-Selects :
      (rules : List AutoPinRule) (items : List DiscoveredItem)
      → Selects rules items (matching_items lower parse_date rules items)
  unfolding matching_items
  matching_items-Selects rules [] = none_left
  matching_items-Selects rules (i ∷ items) =
      elim (Bool-cases (any_matches lower parse_date rules i)) [
        | inl hit ↦
            rw hit (taken i ((any_matches_iff rules i).0 hit) (matching_items-Selects rules items))
        | inr miss ↦ rw miss (
            passed_over i (λ a. let e = (any_matches_iff rules i).1 a in cc (miss, e))
              (matching_items-Selects rules items))
      ]

  pub not-any_matches_of_disabled :
      (rules : List AutoPinRule) (item : DiscoveredItem)
      → All (λ r. r.enabled ≡ false) rules
      → any_matches lower parse_date rules item ≡ false
  unfolding any_matches matches
  not-any_matches_of_disabled [] item h = refl
  not-any_matches_of_disabled (r ∷ rules) item (off, h) =
      rw off (not-any_matches_of_disabled rules item h)

  -- With every rule disabled nothing is selected.
  pub matching_items_of_disabled :
      (rules : List AutoPinRule) (items : List DiscoveredItem)
      → All (λ r. r.enabled ≡ false) rules
      → matching_items lower parse_date rules items ≡ []
  unfolding matching_items
  matching_items_of_disabled rules [] h = refl
  matching_items_of_disabled rules (i ∷ items) h =
      rw (not-any_matches_of_disabled rules i h) (matching_items_of_disabled rules items h)
