-- ===== src/Cid.antt =====
-- pinner.go: the CID shape check, and the group of the two regular expressions that it shares with
-- discovery.go. A Go string is its list of bytes.
pub mod Shape
mod Tests
use pevo_pinner.Prelude.{
  ℕ, zero, suc, Bool, true, false, ◌&&◌, ◌||◌, Option, none, some, List, [], ◌∷◌, ◌++◌, leb,
  if◌then◌else◌,
}
use pevo_pinner.Prelude.Text.{Text, codes, is_empty, strip_prefix}

abbrev pub between : ℕ → ℕ → ℕ → Bool
between lo hi c = leb lo c && leb c hi

-- `[1-9A-HJ-NP-Za-km-z]`
is_base58 : ℕ → Bool
is_base58 c =
    between b'1' b'9' c
    || between b'A' b'H' c
    || between b'J' b'N' c
    || between b'P' b'Z' c
    || between b'a' b'k' c
    || between b'm' b'z' c

-- `[A-Za-z2-7]`
is_base32 : ℕ → Bool
is_base32 c = between b'A' b'Z' c || between b'a' b'z' c || between b'2' b'7' c

abbrev prepend : Text → Option (Text × Text) → Option (Text × Text)
prepend p none = none
prepend p (some (m, rest)) = some (p ++ m, rest)

-- `[class]{n}` at the head of a text: what it matches, and the rest.
repeat_class : (ℕ → Bool) → ℕ → Text → Option (Text × Text)
repeat_class p zero s = some ([], s)
repeat_class p (suc n) [] = none
repeat_class p (suc n) (c ∷ s) = if p c then prepend (c ∷ []) (repeat_class p n s) else none

literal_class : Text → (ℕ → Bool) → ℕ → Text → Option (Text × Text)
literal_class lit p n s = elim (strip_prefix lit s) [
  | none ↦ none
  | some rest ↦ prepend lit (repeat_class p n rest)
]

-- `(Qm[1-9A-HJ-NP-Za-km-z]{44}|b[A-Za-z2-7]{58})` at the head of a text.
unfoldable pub cid_group : Text → Option (Text × Text)
unfolding literal_class repeat_class is_base58 is_base32 strip_prefix
cid_group s = elim (literal_class (codes "Qm") is_base58 44 s) [
  | none ↦ literal_class (codes "b") is_base32 58 s
  | some m ↦ some m
]

-- `ValidateCID`: true stands for the nil error.
unfoldable pub validate_cid : Text → Bool
unfolding cid_group
validate_cid s = elim (cid_group s) [ none ↦ false | some (m, rest) ↦ is_empty rest ]
