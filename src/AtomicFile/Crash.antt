-- ===== src/AtomicFile/Crash.antt =====
-- atomicfile.go: what a reader of the state file can find, at every point of the sequence.
use pevo_pinner.Prelude.{
  ℕ, zero, suc, ◌≡◌, refl, ap, ◌∙◌, All, ◌⊎◌, inl, inr, true, false, none, some, List, [], ◌∷◌,
  take, length, length-append, Bool-cases, arith,
}
use pevo_pinner.Prelude.Text.{Text, codes, same, same_iff, same_refl}
use pevo_pinner.AtomicFile.{
  Fs, Syscall, create, write, remove, rename, apply, apply_all, Faults, tmp_path, cleanup, finish,
  atomic_write_calls, atomic_write_file,
}

not-same-tmp_path : (path : Text) → same (tmp_path path) path ≡ false
not-same-tmp_path path = elim (Bool-cases (same (tmp_path path) path)) [
  | inl e ↦
      let l = ap length ((same_iff (tmp_path path) path).0 e) in
      absurd (omega (arith, l, length-append {0} path (codes ".tmp")))
  | inr e ↦ e
]

not-same-path-tmp : (path : Text) → same path (tmp_path path) ≡ false
not-same-path-tmp path = elim (Bool-cases (same path (tmp_path path))) [
  | inl e ↦
      let l = ap length ((same_iff path (tmp_path path)).0 e) in
      absurd (omega (arith, l, length-append {0} path (codes ".tmp")))
  | inr e ↦ e
]

-- The calls that leave the file at `q` alone.
abbrev Avoids : Text → Syscall → Type 0
Avoids q (create p) = same p q ≡ false
Avoids q (write p bytes) = same p q ≡ false
Avoids q (remove p) = same p q ≡ false
Avoids q (rename p p') = (same p q ≡ false) × (same p' q ≡ false)

apply-Avoids : (q : Text) (c : Syscall) (fs : Fs) → Avoids q c → apply c fs q ≡ fs q
apply-Avoids q (create p) fs h = rw h
apply-Avoids q (write p bytes) fs h = rw h
apply-Avoids q (remove p) fs h = rw h
apply-Avoids q (rename p p') fs (h, k) = rw k (rw h)

apply_all-Avoids :
    (q : Text) (k : ℕ) (cs : List Syscall) (fs : Fs)
    → All (Avoids q) cs
    → apply_all (take k cs) fs q ≡ fs q
apply_all-Avoids q zero cs fs h = refl
apply_all-Avoids q (suc k) [] fs h = refl
apply_all-Avoids q (suc k) (c ∷ cs) fs (here, h) =
    apply_all-Avoids q k cs (apply c fs) h ∙ apply-Avoids q c fs here

apply_all-All-Avoids :
    (q : Text) (cs : List Syscall) (fs : Fs) → All (Avoids q) cs → apply_all cs fs q ≡ fs q
apply_all-All-Avoids q [] fs h = refl
apply_all-All-Avoids q (c ∷ cs) fs (here, h) =
    apply_all-All-Avoids q cs (apply c fs) h ∙ apply-Avoids q c fs here

finish_cases :
    (f : Faults) (path tmp : Text)
    → (f.write_fails ≡ false) × (finish f path tmp ≡ (rename tmp path ∷ [], true))
      ⊎ (finish f path tmp ≡ (cleanup f tmp, false))
unfolding finish
finish_cases f path tmp = ground arith

cleanup-Avoids :
    (f : Faults) (path tmp : Text) → same tmp path ≡ false → All (Avoids path) (cleanup f tmp)
cleanup-Avoids f path tmp h = elim (Bool-cases f.remove_fails) [
  | inl e ↦ rw e tt
  | inr e ↦ rw e (h, tt)
]

-- The whole sequence when nothing fails.
abbrev all_calls : Text → Text → List Syscall
all_calls path bytes =
    create (tmp_path path) ∷ write (tmp_path path) bytes ∷ rename (tmp_path path) path ∷ []

-- Either the sequence runs to its end, or no call of it touches the state file.
atomic_write_cases :
    (f : Faults) (path bytes : Text)
    → (atomic_write_calls f path bytes ≡ (all_calls path bytes, true))
      ⊎ ((atomic_write_calls f path bytes).1 ≡ false)
        × All (Avoids path) (atomic_write_calls f path bytes).0
unfolding atomic_write_calls
atomic_write_cases f path bytes = elim (Bool-cases f.open_fails) [
  | inl e ↦ inr (rw e refl, rw e tt)
  | inr e ↦ elim (finish_cases f path (tmp_path path)) [
    | inl (w, ok) ↦ inl (rw e (rw ok (rw w)))
    | inr bad ↦ inr (
      rw e (rw bad),
      rw e (
          rw bad (
            not-same-tmp_path path,
            (
              not-same-tmp_path path,
              cleanup-Avoids f path (tmp_path path) (not-same-tmp_path path),
            ),
          )),
    )
  ]
]

all_calls_path :
    (fs : Fs) (path bytes : Text) → apply_all (all_calls path bytes) fs path ≡ some bytes
all_calls_path fs path bytes = rw (same_refl path) (rw (same_refl (tmp_path path)))

all_calls_tmp :
    (fs : Fs) (path bytes : Text) → apply_all (all_calls path bytes) fs (tmp_path path) ≡ none
all_calls_tmp fs path bytes = rw (not-same-path-tmp path) (rw (same_refl (tmp_path path)))

take-nil : (k : ℕ) → take {A = Syscall} k [] ≡ []
take-nil zero = refl
take-nil (suc k) = refl

all_calls_crash :
    (k : ℕ) (fs : Fs) (path bytes : Text)
    → (apply_all (take k (all_calls path bytes)) fs path ≡ fs path)
      ⊎ (apply_all (take k (all_calls path bytes)) fs path ≡ some bytes)
all_calls_crash zero fs path bytes = inl refl
all_calls_crash (suc zero) fs path bytes = inl (rw (not-same-tmp_path path))
all_calls_crash (suc (suc zero)) fs path bytes = inl (rw (not-same-tmp_path path))
all_calls_crash (suc (suc (suc k))) fs path bytes =
    rw (take-nil k) (inr (all_calls_path fs path bytes))

-- After any number of the system calls that take effect in a write, whatever fails, the state file
-- holds what it held before or the whole of the new bytes.
pub atomic_write_crash :
    (k : ℕ) (f : Faults) (fs : Fs) (path bytes : Text)
    → (apply_all (take k (atomic_write_calls f path bytes).0) fs path ≡ fs path)
      ⊎ (apply_all (take k (atomic_write_calls f path bytes).0) fs path ≡ some bytes)
atomic_write_crash k f fs path bytes = elim (atomic_write_cases f path bytes) [
  | inl e ↦ rw e (all_calls_crash k fs path bytes)
  | inr (_, h) ↦ inl (apply_all-Avoids path k _ fs h)
]

-- A write, whatever fails, either returns nil with the whole of the bytes in the state file and no
-- temporary file left, or returns an error with the state file as it was.
pub atomic_write_file_lem :
    (f : Faults) (fs : Fs) (path bytes : Text)
    → ((atomic_write_file f fs path bytes).1 ≡ true)
        × ((atomic_write_file f fs path bytes).0 path ≡ some bytes)
        × ((atomic_write_file f fs path bytes).0 (tmp_path path) ≡ none)
      ⊎ ((atomic_write_file f fs path bytes).1 ≡ false)
        × ((atomic_write_file f fs path bytes).0 path ≡ fs path)
unfolding atomic_write_file
atomic_write_file_lem f fs path bytes = elim (atomic_write_cases f path bytes) [
  | inl e ↦ inl (rw e, rw e (all_calls_path fs path bytes), rw e (all_calls_tmp fs path bytes))
  | inr (bad, h) ↦ inr (bad, apply_all-All-Avoids path _ fs h)
]
