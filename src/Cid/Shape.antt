-- ===== src/Cid/Shape.antt =====
-- What the CID check accepts, stated without regular expressions.
use pevo_pinner.Prelude.{
  ℕ, zero, suc, ◌≤◌, ◌≡◌, refl, ap, sym, ◌∙◌, ◌≢◌, ◌↔◌, ◌⊎◌, inl, inr, Bool, true, false, Option,
  none, some, [], ◌∷◌, ◌++◌, append_assoc, append-nil, length, All, All-map, arith, Option-cases,
  Bool-cases,
}
use pevo_pinner.Prelude.Text.{Text, codes, is_empty, strip_prefix, strip_prefix_sound}
use pevo_pinner.Prelude.Text.{strip_prefix-append}
use pevo_pinner.Cid.{
  is_base58, is_base32, prepend, repeat_class, literal_class, cid_group, validate_cid,
}

abbrev pub IsLetter : ℕ → Type 0
IsLetter c = ((b'A' ≤ c) × (c ≤ b'Z')) ⊎ ((b'a' ≤ c) × (c ≤ b'z'))

abbrev pub IsAlnum : ℕ → Type 0
IsAlnum c = ((b'0' ≤ c) × (c ≤ b'9')) ⊎ IsLetter c

-- A letter or a digit, but none of the four that look alike.
abbrev pub IsBase58 : ℕ → Type 0
IsBase58 c = IsAlnum c × (c ≢ b'0') × (c ≢ b'O') × (c ≢ b'I') × (c ≢ b'l')

-- A letter or a digit, but none of `0 1 8 9`.
abbrev pub IsBase32 : ℕ → Type 0
IsBase32 c = IsAlnum c × (c ≢ b'0') × (c ≢ b'1') × (c ≢ b'8') × (c ≢ b'9')

is_base58_iff : (c : ℕ) → (is_base58 c ≡ true) ↔ IsBase58 c
unfolding is_base58
is_base58_iff c = ground arith

is_base32_iff : (c : ℕ) → (is_base32 c ≡ true) ↔ IsBase32 c
unfolding is_base32
is_base32_iff c = ground arith

-- `Qm` and 44 characters of the base-58 alphabet, or `b` and 58 of the base-32 alphabet.
abbrev pub IsCid : Text → Type 0
IsCid s =
    ((r : Text) × (s ≡ codes "Qm" ++ r) × (length r ≡ 44) × All IsBase58 r)
    ⊎ ((r : Text) × (s ≡ codes "b" ++ r) × (length r ≡ 58) × All IsBase32 r)

module _ {P : ℕ → Type 0} (p : ℕ → Bool) (p_iff : (c : ℕ) → (p c ≡ true) ↔ P c) where
  -- What a match `(m, rest)` of `n` characters says of the text `s`.
  abbrev Splits : ℕ → Text → Option (Text × Text) → Type 0
  Splits n s none = Unit
  Splits n s (some (m, rest)) = (s ≡ m ++ rest) × (length m ≡ n) × All P m

  prepend-Splits :
      (n c : ℕ) (s : Text) (o : Option (Text × Text))
      → P c
      → Splits n s o
      → Splits (suc n) (c ∷ s) (prepend (c ∷ []) o)
  prepend-Splits n c s none q h = tt
  prepend-Splits n c s (some (m, rest)) q (e, l, a) = (ap (◌∷◌ c) e, ap suc l, (q, a))

  repeat_class-Splits : (n : ℕ) (s : Text) → Splits n s (repeat_class p n s)
  unfolding repeat_class
  repeat_class-Splits zero s = (refl, refl, tt)
  repeat_class-Splits (suc n) [] = tt
  repeat_class-Splits (suc n) (c ∷ s) = elim (Bool-cases (p c)) [
    | inl hit ↦ rw hit (prepend-Splits n c s _ ((p_iff c).0 hit) (repeat_class-Splits n s))
    | inr miss ↦ rw miss tt
  ]

  repeat_class-append :
      (r rest : Text) → All P r → repeat_class p (length r) (r ++ rest) ≡ some (r, rest)
  unfolding repeat_class
  repeat_class-append [] rest h = refl
  repeat_class-append (c ∷ r) rest (q, h) = rw ((p_iff c).1 q) (rw (repeat_class-append r rest h))

  literal_class-append :
      (lit r c rest : Text) (n : ℕ)
      → c ≡ lit ++ r
      → length r ≡ n
      → All P r
      → literal_class lit p n (c ++ rest) ≡ some (c, rest)
  unfolding literal_class
  literal_class-append lit r c rest n e l h =
      rw (e, ← l, append_assoc lit r rest)
        (rw (strip_prefix-append lit (r ++ rest), literal_class)
          (rw (repeat_class-append r rest h)))

  abbrev Groups : Text → ℕ → Text → Option (Text × Text) → Type 0
  Groups lit n s none = Unit
  Groups lit n s (some (m, rest)) =
      (s ≡ m ++ rest) × ((r : Text) × (m ≡ lit ++ r) × (length r ≡ n) × All P r)

  prepend-Groups :
      (lit : Text) (n : ℕ) (s : Text) (o : Option (Text × Text))
      → Splits n s o
      → Groups lit n (lit ++ s) (prepend lit o)
  prepend-Groups lit n s none h = tt
  prepend-Groups lit n s (some (m, rest)) (e, l, a) =
      (ap (◌++◌ lit) e ∙ sym (append_assoc lit m rest), (m, refl, l, a))

  literal_class-Groups : (lit : Text) (n : ℕ) (s : Text) → Groups lit n s (literal_class lit p n s)
  unfolding literal_class
  literal_class-Groups lit n s = elim (Option-cases (strip_prefix lit s)) [
    | inl e ↦ rw (e, literal_class) tt
    | inr (rest, e) ↦
        rw (e, literal_class)
          (rw (strip_prefix_sound lit s rest e)
            (prepend-Groups lit n rest _ (repeat_class-Splits n rest)))
  ]

-- What a match of the group says: the text begins with a CID.
abbrev pub Begins : Text → Option (Text × Text) → Type 0
Begins s none = Unit
Begins s (some (m, rest)) = (s ≡ m ++ rest) × IsCid m

Begins-b :
    (s : Text) (o : Option (Text × Text))
    → Groups is_base32 is_base32_iff (codes "b") 58 s o
    → Begins s o
Begins-b s none h = tt
Begins-b s (some (m, rest)) (e, r) = (e, inr r)

Begins-qm :
    (s : Text) (o : Option (Text × Text))
    → Groups is_base58 is_base58_iff (codes "Qm") 44 s o
    → Begins s o
Begins-qm s none h = tt
Begins-qm s (some (m, rest)) (e, r) = (e, inl r)

pub cid_group-Begins : (s : Text) → Begins s (cid_group s)
unfolding cid_group
cid_group-Begins s = elim (Option-cases (literal_class (codes "Qm") is_base58 44 s)) [
  | inl miss ↦
      rw (miss, cid_group)
        (Begins-b s _ (literal_class-Groups is_base32 is_base32_iff (codes "b") 58 s))
  | inr (m, hit) ↦
      rw (hit, cid_group)
        (Begins-qm s (some m)
          (rw hit at (literal_class-Groups is_base58 is_base58_iff (codes "Qm") 44 s)))
]

literal_class_miss :
    (p : ℕ → Bool) (lit : Text) (n : ℕ) (s : Text)
    → strip_prefix lit s ≡ none
    → literal_class lit p n s ≡ none
unfolding literal_class
literal_class_miss p lit n s e = rw (e, literal_class)

pub cid_group-append : (c rest : Text) → IsCid c → cid_group (c ++ rest) ≡ some (c, rest)
unfolding cid_group strip_prefix
cid_group-append c rest (inl (r, e, l, a)) =
    rw (literal_class-append is_base58 is_base58_iff (codes "Qm") r c rest 44 e l a, cid_group)
cid_group-append c rest (inr (r, e, l, a)) =
    rw (literal_class_miss is_base58 (codes "Qm") 44 (c ++ rest) (rw e refl), cid_group)
      (literal_class-append is_base32 is_base32_iff (codes "b") r c rest 58 e l a)

validate-IsCid_sound :
    (s : Text) (o : Option (Text × Text))
    → Begins s o
    → elim o [ none ↦ false | some (m, rest) ↦ is_empty rest ] ≡ true
    → IsCid s
validate-IsCid_sound s none b h = cc
validate-IsCid_sound s (some (m, [])) (e, c) h = rw (e, append-nil m) c
validate-IsCid_sound s (some (m, x ∷ rest)) b h = cc

-- ValidateCID accepts a text exactly when it is Qm and 44 letters or digits other than 0, O, I and
-- l, or b and 58 letters or digits other than 0, 1, 8 and 9.
pub validate_cid_iff : (s : Text) → (validate_cid s ≡ true) ↔ IsCid s
unfolding validate_cid
validate_cid_iff s = (
  validate-IsCid_sound s (cid_group s) (cid_group-Begins s),
  λ c. rw (rw (append-nil s) at (cid_group-append s [] c), validate_cid),
)

-- An accepted CID has 46 or 59 bytes, and each of them is a letter or a digit.
pub validate_cid-All-IsAlnum :
    (s : Text) → validate_cid s ≡ true → ((length s ≡ 46) ⊎ (length s ≡ 59)) × All IsAlnum s
validate_cid-All-IsAlnum s h = elim ((validate_cid_iff s).0 h) [
  | inl (r, e, l, a) ↦
      rw e (inl (omega arith), (omega arith, (omega arith, All-map (λ c b. b.0) r a)))
  | inr (r, e, l, a) ↦ rw e (inr (omega arith), (omega arith, All-map (λ c b. b.0) r a))
]
