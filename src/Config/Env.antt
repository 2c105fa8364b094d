-- ===== src/Config/Env.antt =====
-- config.go: envOrFlag and loadDotenv. The environment gives each variable its value, the empty text
-- if it is not set, as `os.Getenv` does.
use pevo_pinner.Prelude.{
  ℕ, ◌≡◌, ◌∙◌, inl, inr, Bool, false, not, ◌&&◌, ◌||◌, Option, none, some, List, [], ◌∷◌, ◌==◌,
  if◌then◌else◌, Bool-cases, Option-cases, arith,
}
use pevo_pinner.Prelude.Text.{Text, codes, is_empty, same, same_iff, strip_prefix}

abbrev pub Env : Type 0
Env = Text → Text

unfoldable pub env_or_flag : Env → (env_key flag_val default_val : Text) → Text
env_or_flag env env_key flag_val default_val =
    if not (is_empty flag_val)
    then flag_val
    else (if not (is_empty (env env_key)) then env env_key else default_val)

unfoldable pub contains_byte : ℕ → Text → Bool
contains_byte c [] = false
contains_byte c (x ∷ s) = x == c || contains_byte c s

-- `strings.Cut` at a byte.
unfoldable pub cut : ℕ → Text → Option (Text × Text)
cut c [] = none
cut c (x ∷ s) =
    if x == c
    then some ([], s)
    else elim (cut c s) [ none ↦ none | some (front, behind) ↦ some (x ∷ front, behind) ]

abbrev pub last_byte : Text → ℕ → ℕ
last_byte [] c = c
last_byte (x ∷ s) c = last_byte s x

abbrev pub without_last : ℕ → Text → Text
without_last x [] = []
without_last x (y ∷ s) = x ∷ without_last y s

-- A value in a pair of double or of single quotes loses them.
unfoldable pub unquote : Text → Text
unquote [] = []
unquote (q ∷ []) = q ∷ []
unquote (q ∷ x ∷ s) =
    if (q == b'"' && last_byte s x == b'"') || (q == 0x27 && last_byte s x == 0x27)
    then without_last x s
    else q ∷ x ∷ s

-- The entry of a line, if it has one. `trim` is `strings.TrimSpace`.
unfoldable pub entry_of : (trim : Text → Text) → Text → Option (Text × Text)
entry_of trim raw =
    let line = trim raw in
    if is_empty line then none else elim (strip_prefix (codes "#") line) [
      | some rest ↦ none
      | none ↦ elim (cut b'=' line) [
        | none ↦ none
        | some (key, val) ↦ some (trim key, unquote (trim val))
      ]
    ]

-- What `os.Setenv` accepts.
unfoldable pub is_settable : Text → Text → Bool
is_settable key val =
    not (is_empty key)
    && not (contains_byte b'=' key)
    && not (contains_byte 0 key)
    && not (contains_byte 0 val)

-- `_ = os.Setenv(key, val)`
unfoldable pub set_env : Text → Text → Env → Env
set_env key val env k = if is_settable key val && same key k then val else env k

-- The end of one turn of the loop.
unfoldable pub set_if_unset : Text → Text → Env → Env
unfolding set_env
set_if_unset key val env = if is_empty (env key) then set_env key val env else env

-- `lines` is what the scanner gives; none: the file cannot be opened.
unfoldable pub load_lines : (trim : Text → Text) → List Text → Env → Env
unfolding entry_of set_if_unset
load_lines trim [] env = env
load_lines trim (l ∷ ls) env =
    load_lines trim ls
      (elim (entry_of trim l) [ none ↦ env | some (key, val) ↦ set_if_unset key val env ])

unfoldable pub load_dotenv : (trim : Text → Text) → Option (List Text) → Env → Env
unfolding load_lines
load_dotenv trim none env = env
load_dotenv trim (some lines) env = load_lines trim lines env

-- The value that a file gives a variable: that of its first entry that is not empty and can be set.
abbrev pub first_entry : (trim : Text → Text) → Text → List Text → Text
first_entry trim k [] = []
first_entry trim k (l ∷ ls) = elim (entry_of trim l) [
  | none ↦ first_entry trim k ls
  | some (key, val) ↦
      if same key k && is_settable key val && not (is_empty val) then val else first_entry trim k ls
]

set_if_unset_lem :
    (key val : Text) (env : Env) (k : Text)
    → set_if_unset key val env k
      ≡ (if is_empty (env k) && same key k && is_settable key val then val else env k)
unfolding set_if_unset set_env
set_if_unset_lem key val env k = elim (Bool-cases (same key k)) [
  | inl e ↦ rw ((same_iff key k).0 e) (ground (arith, same_iff k k))
  | inr e ↦ ground (arith, e)
]

load_lines_lem :
    (trim : Text → Text) (ls : List Text) (env : Env) (k : Text)
    → load_lines trim ls env k ≡ (if is_empty (env k) then first_entry trim k ls else env k)
unfolding load_lines
load_lines_lem trim [] env k = ground arith
load_lines_lem trim (l ∷ ls) env k = elim (Option-cases (entry_of trim l)) [
  | inl e ↦ rw (e, load_lines, first_entry) (load_lines_lem trim ls env k)
  | inr ((key, val), e) ↦
      rw (e, load_lines, first_entry)
        (load_lines_lem trim ls (set_if_unset key val env) k
          ∙ ground (arith, set_if_unset_lem key val env k))
]

-- After the file is loaded, a variable that was set has its value still, and a variable that was
-- not has that of its first entry in the file that is not empty and can be set.
pub load_dotenv_lem :
    (trim : Text → Text) (ls : List Text) (env : Env) (k : Text)
    → load_dotenv trim (some ls) env k ≡ (if is_empty (env k) then first_entry trim k ls else env k)
unfolding load_dotenv
load_dotenv_lem trim ls env k = load_lines_lem trim ls env k
