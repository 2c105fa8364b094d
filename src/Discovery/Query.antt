-- ===== src/Discovery/Query.antt =====
-- discovery.go: buildDiscoveryQuery, and how PostgreSQL takes its text apart. `pq.QuoteLiteral` is an
-- argument.
use pevo_pinner.Prelude.{
  ℕ, ◌≡◌, refl, ap, ◌∙◌, Bool, true, false, List, [], ◌∷◌, ◌++◌, append-nil, append_assoc, ◌==◌,
  if◌then◌else◌, Bool-cases, inl, inr, arith, not, All,
}
use pevo_pinner.Prelude.Text.{Text, codes}
use pevo_pinner.Config.Env.{contains_byte}

-- The parts of the text between its variables, in their order.
abbrev pub select_part : Text
select_part = codes "\nSELECT c.author, c.permlink, c.title,\n       c.json_metadata -> "

abbrev pub cid_part : Text
cid_part = codes " ->> 'ipfs_cid' AS ipfs_cid,\n       c.json_metadata -> "

abbrev pub filename_part : Text
filename_part = codes " ->> 'ipfs_filename' AS filename,\n       c.json_metadata -> "

abbrev pub discipline_part : Text
discipline_part = codes " ->> 'discipline' AS discipline,\n       c.json_metadata -> "

abbrev pub files_part : Text
files_part =
    codes
      " -> 'supplementary_files' AS supplementary_files,\n       c.body,\n       'paper' AS cid_type,\n       c.created\nFROM hafsql.comments c\nWHERE c.parent_author = ''\n  AND c.parent_permlink = "

abbrev pub permlink_part : Text
permlink_part = codes "\n  AND (c.json_metadata -> "

abbrev pub type_part : Text
type_part = codes " ->> 'type') IN ('paper', 'bridge_paper')\n  AND c.json_metadata ->> 'app' LIKE "

abbrev pub app_part : Text
app_part = codes "\n  AND c.json_metadata -> "

abbrev pub order_part : Text
order_part = codes " ->> 'ipfs_cid' IS NOT NULL\nORDER BY c.created DESC\n"

unfoldable pub build_discovery_query : (quote_literal : Text → Text) → (app_tag : Text) → Text
build_discovery_query quote_literal app_tag =
    let t = quote_literal app_tag in
    let p = quote_literal (app_tag ++ codes "%") in
    select_part
    ++ (t
        ++ (cid_part
            ++ (t
                ++ (filename_part
                    ++ (t
                        ++ (discipline_part
                            ++ (t
                                ++ (files_part
                                    ++ (t
                                        ++ (permlink_part
                                            ++ (t
                                                ++ (type_part
                                                    ++ (p
                                                        ++ (app_part
                                                            ++ (t ++ order_part)))))))))))))))

-- The text outside of the string literals, the values of the literals in their order, and whether the
-- last one is closed.
pub record Lexed : Type 0 where
  pub outside : Text
  pub literals : List Text
  pub is_closed : Bool

abbrev pub push : ℕ → Lexed → Lexed
push c l = record l { outside = c ∷ l.outside }

abbrev pub add_literal : Text → Lexed → Lexed
add_literal t l = record l { literals = t ∷ l.literals }

-- In front of the next byte: outside, in a literal with the value so far, or behind a quote in one,
-- which closes it unless another quote follows.
pub data Mode : Type 0 where
  plain : Mode
  within : (value : Text) → Mode
  behind_quote : (value : Text) → Mode

abbrev pub quote : ℕ
quote = b'\''

unfoldable pub lex_from : Mode → Text → Lexed
lex_from plain [] = record { outside = []; literals = []; is_closed = true }
lex_from (within v) [] = record { outside = []; literals = v ∷ []; is_closed = false }
lex_from (behind_quote v) [] = record { outside = []; literals = v ∷ []; is_closed = true }
lex_from plain (c ∷ s) = elim (c == quote) [
  | true ↦ lex_from (within []) s
  | false ↦ push c (lex_from plain s)
]
lex_from (within v) (c ∷ s) = elim (c == quote) [
  | true ↦ lex_from (behind_quote v) s
  | false ↦ lex_from (within (v ++ c ∷ [])) s
]
lex_from (behind_quote v) (c ∷ s) = elim (c == quote) [
  | true ↦ lex_from (within (v ++ quote ∷ [])) s
  | false ↦ add_literal v (push c (lex_from plain s))
]

unfoldable pub lex : Text → Lexed
unfolding lex_from
lex s = lex_from plain s

-- What `pq.QuoteLiteral` does to a text without a backslash: every quote in it is doubled.
unfoldable pub doubled : Text → Text
doubled [] = []
doubled (c ∷ s) = let later = doubled s in if c == quote then quote ∷ quote ∷ later else c ∷ later

abbrev pub quoted : Text → Text
quoted t = quote ∷ (doubled t ++ quote ∷ [])

-- A literal is read to its end, whatever quotes are in its value.
lex_from-doubled :
    (v t rest : Text)
    → lex_from (within v) (doubled t ++ quote ∷ rest) ≡ lex_from (behind_quote (v ++ t)) rest
unfolding lex_from doubled
lex_from-doubled v [] rest = rw (append-nil v) refl
lex_from-doubled v (c ∷ t) rest = elim (Bool-cases (c == quote)) [
  | inl e ↦
      let k : c ≡ quote = ground (arith, e) in
      rw k (
        lex_from-doubled (v ++ quote ∷ []) t rest
        ∙ ap (λ w. lex_from (behind_quote w) rest) (append_assoc v (quote ∷ []) t))
  | inr e ↦
      rw (e, doubled)
        (rw (e, lex_from)
          (lex_from-doubled (v ++ c ∷ []) t rest
            ∙ ap (λ w. lex_from (behind_quote w) rest) (append_assoc v (c ∷ []) t)))
]

-- One text behind another that leaves no literal open.
abbrev join : Lexed → Lexed → Lexed
join a b = record {
  outside = a.outside ++ b.outside;
  literals = a.literals ++ b.literals;
  is_closed = b.is_closed;
}

starts_plain : Text → Bool
starts_plain [] = false
starts_plain (c ∷ s) = not (c == quote)

-- A part of the query that stands behind a literal: whatever follows, it is read by itself.
IsSegment : Text → Type 0
IsSegment s =
    (starts_plain s ≡ true)
    × ((rest : Text) → lex_from plain (s ++ rest) ≡ join (lex_from plain s) (lex_from plain rest))

lex_from-quoted :
    (t s rest : Text)
    → IsSegment s
    → lex_from plain (quoted t ++ (s ++ rest))
      ≡ add_literal t (join (lex_from plain s) (lex_from plain rest))
unfolding lex_from IsSegment starts_plain
lex_from-quoted t [] rest (h, k) = cc
lex_from-quoted t (c ∷ s) rest (h, k) =
    let ordinary : (c == quote) ≡ false = ground (arith, h) in
    rw (append_assoc (doubled t) (quote ∷ []) (c ∷ (s ++ rest))) (
      rw (lex_from-doubled [] t (c ∷ (s ++ rest)))
        (rw (ordinary, lex_from) (ap (add_literal t) (rw (ordinary, lex_from) at (k rest)))))

-- Literals, each with the segment behind it.
render : List (Text × Text) → Text
render [] = []
render ((t, s) ∷ ps) = quoted t ++ (s ++ render ps)

joined : List (Text × Text) → Lexed
joined [] = record { outside = []; literals = []; is_closed = true }
joined ((t, s) ∷ ps) = add_literal t (join (lex_from plain s) (joined ps))

lex_from-render :
    (ps : List (Text × Text))
    → All (λ (t, s). IsSegment s) ps
    → lex_from plain (render ps) ≡ joined ps
unfolding render joined lex_from
lex_from-render [] all = refl
lex_from-render ((t, s) ∷ ps) (here, all) =
    lex_from-quoted t s (render ps) here
    ∙ ap (λ l. add_literal t (join (lex_from plain s) l)) (lex_from-render ps all)

-- The query without its literals.
abbrev pub skeleton : Text
skeleton =
    codes
      "\nSELECT c.author, c.permlink, c.title,\n       c.json_metadata ->  ->>  AS ipfs_cid,\n       c.json_metadata ->  ->>  AS filename,\n       c.json_metadata ->  ->>  AS discipline,\n       c.json_metadata ->  ->  AS supplementary_files,\n       c.body,\n        AS cid_type,\n       c.created\nFROM hafsql.comments c\nWHERE c.parent_author = \n  AND c.parent_permlink = \n  AND (c.json_metadata ->  ->> ) IN (, )\n  AND c.json_metadata ->>  LIKE \n  AND c.json_metadata ->  ->>  IS NOT NULL\nORDER BY c.created DESC\n"

-- Its literals, in their order.
abbrev pub literals_of : (app_tag : Text) → List Text
literals_of t =
    t
    ∷ codes "ipfs_cid"
    ∷ t
    ∷ codes "ipfs_filename"
    ∷ t
    ∷ codes "discipline"
    ∷ t
    ∷ codes "supplementary_files"
    ∷ codes "paper"
    ∷ []
    ∷ t
    ∷ t
    ∷ codes "type"
    ∷ codes "paper"
    ∷ codes "bridge_paper"
    ∷ codes "app"
    ∷ (t ++ codes "%")
    ∷ t
    ∷ codes "ipfs_cid"
    ∷ []

abbrev backslash : ℕ
backslash = b'\\'

with_percent :
    (t : Text)
    → contains_byte backslash t ≡ false
    → contains_byte backslash (t ++ codes "%") ≡ false
unfolding contains_byte
with_percent [] h = refl
with_percent (c ∷ t) h = ground (arith, h, with_percent t)

-- The literals of the tag, each with the part behind it.
tagged_parts : Text → List (Text × Text)
tagged_parts t =
    (t, cid_part)
    ∷ (t, filename_part)
    ∷ (t, discipline_part)
    ∷ (t, files_part)
    ∷ (t, permlink_part)
    ∷ (t, type_part)
    ∷ (t ++ codes "%", app_part)
    ∷ (t, order_part)
    ∷ []

tagged_parts-IsSegment : (t : Text) → All (λ (u, s). IsSegment s) (tagged_parts t)
unfolding tagged_parts IsSegment starts_plain lex_from
tagged_parts-IsSegment t = (
  (refl, λ rest. refl),
  (
    (refl, λ rest. refl),
    (
      (refl, λ rest. refl),
      (
        (refl, λ rest. refl),
        (
          (refl, λ rest. refl),
          ((refl, λ rest. refl), ((refl, λ rest. refl), ((refl, λ rest. refl), tt))),
        ),
      ),
    ),
  ),
)

select_part-join :
    (rest : Text)
    → lex_from plain (select_part ++ rest) ≡ join (lex_from plain select_part) (lex_from plain rest)
unfolding lex_from
select_part-join rest = refl

-- What the parts and the literals amount to.
joined-tagged_parts :
    (t : Text)
    → join (lex_from plain select_part) (joined (tagged_parts t))
      ≡ record { outside = skeleton; literals = literals_of t; is_closed = true }
unfolding lex_from joined tagged_parts
joined-tagged_parts t = refl

-- If QuoteLiteral doubles the quotes of a text without a backslash and puts it between quotes, then
-- for every tag without a backslash, whatever quotes it has, the query reads as one fixed text
-- outside of its string literals, all of them closed, whose values are the fixed ones with the tag,
-- and once the tag and a percent sign, in between.
pub build_discovery_query_lem :
    (quote_literal : Text → Text) (app_tag : Text)
    → ((t : Text) → contains_byte backslash t ≡ false → quote_literal t ≡ quoted t)
    → contains_byte backslash app_tag ≡ false
    → lex (build_discovery_query quote_literal app_tag)
      ≡ record { outside = skeleton; literals = literals_of app_tag; is_closed = true }
unfolding lex build_discovery_query render tagged_parts
build_discovery_query_lem quote_literal app_tag quotes clean =
    rw (quotes app_tag clean, quotes (app_tag ++ codes "%") (with_percent app_tag clean))
      (select_part-join (render (tagged_parts app_tag))
        ∙ ap (join (lex_from plain select_part))
            (lex_from-render (tagged_parts app_tag) (tagged_parts-IsSegment app_tag))
        ∙ joined-tagged_parts app_tag)
