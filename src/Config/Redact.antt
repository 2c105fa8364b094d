-- ===== src/Config/Redact.antt =====
-- config.go: redactURL. A slice out of range is a panic, none here.
use pevo_pinner.Prelude.{
  ℕ, suc, ◌+◌, ◌≤◌, ◌<◌, ◌≡◌, ◌≢◌, ◌↔◌, refl, sym, ap, ◌∙◌, inl, inr, true, false, ◌||◌, Option,
  none, some, [], ◌∷◌, ◌++◌, append_assoc, length, length-append, take, drop, leb, ◌==◌,
  if◌then◌else◌, Option-cases, arith, take-length-append, drop-length-append,
}
use pevo_pinner.Prelude.Text.{Text, codes, is_empty, strip_prefix, strip_prefix_sound}
use pevo_pinner.Config.Env.{contains_byte}

-- `strings.Index`: none stands for -1.
unfoldable pub index : (needle : Text) → Text → Option ℕ
index needle [] = if is_empty needle then some 0 else none
index needle (c ∷ s) = elim (strip_prefix needle (c ∷ s)) [
  | some rest ↦ some 0
  | none ↦ elim (index needle s) [ none ↦ none | some i ↦ some (suc i) ]
]

-- `s[:n]` and `s[n:]`
unfoldable pub slice_to : ℕ → Text → Option Text
slice_to n s = if leb n (length s) then some (take n s) else none

-- `strings.Index(u, "://") + 3`
abbrev pub after_scheme : Option ℕ → ℕ
after_scheme none = 2
after_scheme (some i) = i + 3

-- From the split behind the scheme on.
unfoldable pub redact_rest : (u prefix rest : Text) → Text
redact_rest u prefix rest = elim (index (codes "@") rest) [
  | none ↦ u
  | some at_idx ↦ elim (index (codes ":") (take at_idx rest)) [
    | none ↦ u
    | some colon_idx ↦
        prefix ++ (take colon_idx (take at_idx rest) ++ (codes ":****" ++ drop at_idx rest))
  ]
]

unfoldable pub redact_url : Text → Option Text
unfolding redact_rest slice_to
redact_url u = elim (index (codes "@") u) [
  | none ↦ some u
  | some at_sign ↦ elim (slice_to (after_scheme (index (codes "://") u)) u) [
    | none ↦ none
    | some prefix ↦ some (redact_rest u prefix (drop (length prefix) u))
  ]
]

strip_prefix-length : (p s r : Text) → strip_prefix p s ≡ some r → length p ≤ length s
strip_prefix-length p s r e = rw (strip_prefix_sound p s r e) (omega (arith, length-append {0} p r))

-- A found needle lies within the text.
index_bound : (needle s : Text) (i : ℕ) → index needle s ≡ some i → i + length needle ≤ length s
unfolding index
index_bound [] [] i e = ground arith
index_bound (x ∷ needle) [] i e = cc
index_bound needle (c ∷ s) i e = elim (Option-cases (strip_prefix needle (c ∷ s))) [
  | inr (r, f) ↦
      let at_start : some 0 ≡ some i = rw (f, index) at e in
      ground (arith, strip_prefix-length needle (c ∷ s) r f)
  | inl f ↦ elim (Option-cases (index needle s)) [
    | inl g ↦ let absurd : none ≡ some i = rw (f, g, index) at e in cc
    | inr (j, g) ↦
        let later : some (suc j) ≡ some i = rw (f, g, index) at e in
        ground (arith, index_bound needle s j g)
  ]
]

other_byte :
    (c x : ℕ) (needle s : Text) → (x == c) ≡ false → strip_prefix (c ∷ needle) (x ∷ s) ≡ none
unfolding strip_prefix
other_byte c x needle s h = ground arith

-- A byte that the text lacks is found first behind it.
index-append :
    (c : ℕ) (s rest : Text)
    → contains_byte c s ≡ false
    → index (c ∷ []) (s ++ c ∷ rest) ≡ some (length s)
unfolding index strip_prefix contains_byte
index-append c [] rest h = ground arith
index-append c (x ∷ s) rest h =
    let ih : index (c ∷ []) (s ++ c ∷ rest) ≡ some (length s) =
      index-append c s rest (ground arith) in
    rw (other_byte c x [] _ (ground arith), index) (rw ih refl)

index_absent : (c : ℕ) (s : Text) → contains_byte c s ≡ false → index (c ∷ []) s ≡ none
unfolding index strip_prefix contains_byte
index_absent c [] h = refl
index_absent c (x ∷ s) h =
    let ih : index (c ∷ []) s ≡ none = index_absent c s (ground arith) in
    rw (other_byte c x [] _ (ground arith), index) (rw ih refl)

index_present : (c : ℕ) (s : Text) → contains_byte c s ≡ true → index (c ∷ []) s ≢ none
unfolding index strip_prefix contains_byte
index_present c [] h = cc
index_present c (x ∷ s) h = ground (arith, index_present c s)

-- Behind a scheme, the separator is found where the scheme ends.
index_scheme :
    (s rest : Text)
    → contains_byte b':' s ≡ false
    → index (codes "://") (s ++ (codes "://" ++ rest)) ≡ some (length s)
unfolding index strip_prefix contains_byte
index_scheme [] rest h = refl
index_scheme (x ∷ s) rest h =
    let ih : index (codes "://") (s ++ (codes "://" ++ rest)) ≡ some (length s) =
      index_scheme s rest (ground arith) in
    rw (other_byte b':' x (codes "//") _ (ground arith), index) (rw ih refl)

contains_byte-append :
    (c : ℕ) (s rest : Text)
    → contains_byte c (s ++ rest) ≡ (contains_byte c s || contains_byte c rest)
unfolding contains_byte
contains_byte-append c [] rest = refl
contains_byte-append c (x ∷ s) rest = ground (arith, contains_byte-append c s rest)

slice_to-append : (p rest : Text) (n : ℕ) → n ≡ length p → slice_to n (p ++ rest) ≡ some p
unfolding slice_to
slice_to-append p rest n e =
    let inside : leb (length p) (length (p ++ rest)) ≡ true =
      ground (arith, length-append {0} p rest) in
    rw e (rw inside (ap some (take-length-append p rest)))

-- What redactURL does with a text that has an `@`, from the split on.
split_behind :
    (u p rest : Text)
    → u ≡ p ++ rest
    → index (codes "@") u ≢ none
    → after_scheme (index (codes "://") u) ≡ length p
    → redact_url u ≡ some (redact_rest u p rest)
unfolding redact_url
split_behind u p rest e present after = elim (Option-cases (index (codes "@") u)) [
  | inl missing ↦ absurd (present missing)
  | inr (i, found) ↦
      let cut_off : slice_to (length p) u ≡ some p =
        rw e (slice_to-append p rest (length p) refl) in
      let left_over : drop (length p) u ≡ rest = rw e (drop-length-append p rest) in
      rw (found, redact_url) (rw (after, redact_url) (rw (cut_off, redact_url) (rw left_over refl)))
]

redact_user :
    (u p user pass host : Text)
    → contains_byte b':' user ≡ false
    → contains_byte b'@' (user ++ b':' ∷ pass) ≡ false
    → redact_rest u p ((user ++ b':' ∷ pass) ++ b'@' ∷ host)
      ≡ p ++ (user ++ (codes ":****" ++ b'@' ∷ host))
unfolding redact_rest
redact_user u p user pass host hu ha =
    let up = user ++ b':' ∷ pass in
    let kept : take (length up) (up ++ b'@' ∷ host) ≡ up = take-length-append up (b'@' ∷ host) in
    let colon : index (codes ":") (take (length up) (up ++ b'@' ∷ host)) ≡ some (length user) =
      rw kept (index-append b':' user pass hu) in
    rw (index-append b'@' up host ha, redact_rest)
      (rw (colon, redact_rest)
        (rw (kept, drop-length-append up (b'@' ∷ host))
          (rw (take-length-append user (b':' ∷ pass)) refl)))

-- A URL of a scheme without colons, ://, a user without colons and @, a colon, a password without
-- @, an @ and any rest is shown with **** in the place of the password, and else unchanged.
pub redact_url_lem :
    (scheme user pass host : Text)
    → contains_byte b':' scheme ≡ false
    → contains_byte b':' user ≡ false
    → contains_byte b'@' user ≡ false
    → contains_byte b'@' pass ≡ false
    → redact_url (scheme ++ (codes "://" ++ ((user ++ b':' ∷ pass) ++ b'@' ∷ host)))
      ≡ some (scheme ++ (codes "://" ++ (user ++ (codes ":****@" ++ host))))
unfolding contains_byte
redact_url_lem scheme user pass host hs hu hau hap =
    let rest = (user ++ b':' ∷ pass) ++ b'@' ∷ host in
    let clean : contains_byte b'@' (user ++ b':' ∷ pass) ≡ false =
      ground (arith, contains_byte-append b'@' user (b':' ∷ pass)) in
    let in_rest : contains_byte b'@' rest ≡ true =
      ground (arith, contains_byte-append b'@' (user ++ b':' ∷ pass) (b'@' ∷ host)) in
    let in_url : contains_byte b'@' (scheme ++ (codes "://" ++ rest)) ≡ true =
      ground (arith, in_rest, contains_byte-append b'@' scheme (codes "://" ++ rest)) in
    split_behind (scheme ++ (codes "://" ++ rest)) (scheme ++ codes "://") rest
      (sym (append_assoc scheme (codes "://") rest))
      (index_present b'@' (scheme ++ (codes "://" ++ rest)) in_url)
      (rw (index_scheme scheme rest hs) (omega (arith, length-append {0} scheme (codes "://"))))
    ∙ ap some (
        redact_user _ (scheme ++ codes "://") user pass host hu clean
        ∙ append_assoc scheme (codes "://") (user ++ (codes ":****" ++ b'@' ∷ host)))

-- A text of at most one byte that has an `@` is that byte.
only_at : (u : Text) (i : ℕ) → length u < 2 → index (codes "@") u ≡ some i → u ≡ codes "@"
unfolding index strip_prefix
only_at [] i h e = cc
only_at (c ∷ []) i h e = ground arith
only_at (c ∷ d ∷ s) i h e = absurd (omega (arith, h))

slice_to-none : (n : ℕ) (u : Text) → slice_to n u ≡ none → length u < n
unfolding slice_to
slice_to-none n u h = ground arith

-- redactURL panics on the text of a single @, and on no other.
pub redact_url-none_iff : (u : Text) → (redact_url u ≡ none) ↔ (u ≡ codes "@")
unfolding redact_url index strip_prefix
redact_url-none_iff u = (
  λ h. elim (Option-cases (index (codes "@") u)) [
    | inl missing ↦ let absurd_eq : some u ≡ none = rw (missing, redact_url) at h in cc
    | inr (i, found) ↦ elim (Option-cases (slice_to (after_scheme (index (codes "://") u)) u)) [
      | inr (p, e) ↦
          let absurd_eq : some (redact_rest u p (drop (length p) u)) ≡ none =
            rw (found, e, redact_url) at h in
          cc
      | inl e ↦ elim (Option-cases (index (codes "://") u)) [
        | inl g ↦ only_at u i (slice_to-none 2 u (rw g at e)) found
        | inr (j, g) ↦
            absurd
              (omega (arith, slice_to-none (j + 3) u (rw g at e), index_bound (codes "://") u j g))
      ]
    ]
  ],
  λ e. rw e refl,
)
