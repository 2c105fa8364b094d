-- ===== src/Prelude/Firsts.antt =====
-- The first member of each key in a list: what a loop with a set of seen keys keeps.
use mathlib.Core.Path.{◌≡◌, refl}
use mathlib.Core.Logic.{inl, inr}
use mathlib.Core.Bool.{true, false, ◌||◌}
use mathlib.Core.List.{List, [], ◌∷◌, ◌++◌, map}
use native.Mathlib.Omega.{arith}
use pevo_pinner.Prelude.Tests.{if◌then◌else◌, Bool-cases}
use pevo_pinner.Prelude.Lists.{All}
use pevo_pinner.Prelude.Text.{Text, has, same_iff, same_refl, IsDistinct}

module _ {ℓ} {A : Type ℓ} (key : A → Text) where
  unfoldable pub firsts_by : List Text → List A → List A
  firsts_by seen [] = []
  firsts_by seen (x ∷ xs) =
      if has (key x) seen then firsts_by seen xs else x ∷ firsts_by (key x ∷ seen) xs

  -- The keys once the members are gone through.
  unfoldable pub mark_by : List Text → List A → List Text
  mark_by seen [] = seen
  mark_by seen (x ∷ xs) = mark_by (if has (key x) seen then seen else key x ∷ seen) xs

  has-firsts_by :
      (c : Text) (seen : List Text) (xs : List A)
      → has c seen ≡ true
      → has c (map key (firsts_by seen xs)) ≡ false
  unfolding has firsts_by
  has-firsts_by c seen [] h = refl
  has-firsts_by c seen (x ∷ xs) h = elim (Bool-cases (has (key x) seen)) [
    | inl known ↦ rw (known, firsts_by) (has-firsts_by c seen xs h)
    | inr new ↦
        rw (new, firsts_by)
          (ground (arith, new, h, same_iff (key x) c, has-firsts_by c (key x ∷ seen) xs))
  ]

  pub firsts_by-IsDistinct :
      (seen : List Text) (xs : List A) → IsDistinct (map key (firsts_by seen xs))
  unfolding has firsts_by
  firsts_by-IsDistinct seen [] = tt
  firsts_by-IsDistinct seen (x ∷ xs) = elim (Bool-cases (has (key x) seen)) [
    | inl known ↦ rw (known, firsts_by) (firsts_by-IsDistinct seen xs)
    | inr new ↦
        rw (new, firsts_by)
          (
            has-firsts_by (key x) (key x ∷ seen) xs (rw (same_refl (key x)) refl),
            firsts_by-IsDistinct (key x ∷ seen) xs,
          )
  ]

  pub has-map-firsts_by :
      (c : Text) (seen : List Text) (xs : List A)
      → (has c seen || has c (map key (firsts_by seen xs))) ≡ (has c seen || has c (map key xs))
  unfolding has firsts_by
  has-map-firsts_by c seen [] = refl
  has-map-firsts_by c seen (x ∷ xs) = elim (Bool-cases (has (key x) seen)) [
    | inl known ↦
        rw (known, firsts_by)
          (ground (arith, known, same_iff (key x) c, has-map-firsts_by c seen xs))
    | inr new ↦ rw (new, firsts_by) (ground (arith, has-map-firsts_by c (key x ∷ seen) xs))
  ]

  pub firsts_by-append :
      (seen : List Text) (xs ys : List A)
      → firsts_by seen (xs ++ ys) ≡ firsts_by seen xs ++ firsts_by (mark_by seen xs) ys
  unfolding firsts_by mark_by
  firsts_by-append seen [] ys = refl
  firsts_by-append seen (x ∷ xs) ys =
      ground (arith, firsts_by-append seen xs ys, firsts_by-append (key x ∷ seen) xs ys)

  pub mark_by-append :
      (seen : List Text) (xs ys : List A) → mark_by seen (xs ++ ys) ≡ mark_by (mark_by seen xs) ys
  unfolding mark_by
  mark_by-append seen [] ys = refl
  mark_by-append seen (x ∷ xs) ys =
      mark_by-append (if has (key x) seen then seen else key x ∷ seen) xs ys

  pub firsts_by-All {κ} :
      (P : A → Type κ) (seen : List Text) (xs : List A) → All P xs → All P (firsts_by seen xs)
  unfolding firsts_by
  firsts_by-All P seen [] h = tt
  firsts_by-All P seen (x ∷ xs) (q, h) = elim (Bool-cases (has (key x) seen)) [
    | inl known ↦ rw (known, firsts_by) (firsts_by-All P seen xs h)
    | inr new ↦ rw (new, firsts_by) (q, firsts_by-All P (key x ∷ seen) xs h)
  ]
