-- ===== src/AtomicFile.antt =====
-- atomicfile.go: writing a state file by a temporary file and a rename. A file system maps a path to
-- the bytes stored there. Each system call of the sequence may fail, as `Faults` says; the calls that
-- take effect are listed, so that a crash between any two of them is a prefix of the list.
pub mod Crash
mod Tests
use pevo_pinner.Prelude.{
  ℕ, zero, suc, Bool, true, false, Option, none, some, List, [], ◌∷◌, ◌++◌, take, if◌then◌else◌,
}
use pevo_pinner.Prelude.Text.{Text, codes, same}

abbrev pub Fs : Type 0
Fs = Text → Option Text

abbrev pub update : Fs → Text → Option Text → Fs
update fs p v q = if same p q then v else fs q

pub data Syscall : Type 0 where
  create : Text → Syscall
  write : Text → Text → Syscall
  remove : Text → Syscall
  rename : Text → Text → Syscall

abbrev pub apply : Syscall → Fs → Fs
apply (create p) fs = update fs p (some [])
apply (write p bytes) fs = update fs p (some bytes)
apply (remove p) fs = update fs p none
apply (rename p q) fs = update (update fs p none) q (fs p)

abbrev pub apply_all : List Syscall → Fs → Fs
apply_all [] fs = fs
apply_all (c ∷ cs) fs = apply_all cs (apply c fs)

-- Which calls fail. A failed write stores the first `written` bytes; a failed remove does nothing.
pub record Faults : Type 0 where
  pub open_fails : Bool
  pub write_fails : Bool
  pub written : ℕ
  pub sync_fails : Bool
  pub close_fails : Bool
  pub rename_fails : Bool
  pub remove_fails : Bool

abbrev pub tmp_path : Text → Text
tmp_path path = path ++ codes ".tmp"

-- `_ = os.Remove(tmpPath)`
abbrev pub cleanup : Faults → Text → List Syscall
cleanup f tmp = if f.remove_fails then [] else remove tmp ∷ []

-- The checks once the file is open, in the order of the source; true is the nil error.
finish : Faults → Text → Text → List Syscall × Bool
finish f path tmp =
    if f.write_fails
    then (cleanup f tmp, false)
    else (if f.sync_fails
        then (cleanup f tmp, false)
        else (if f.close_fails
            then (cleanup f tmp, false)
            else (if f.rename_fails then (cleanup f tmp, false) else (rename tmp path ∷ [], true))))

-- The calls of `atomicWriteFile` that take effect, and whether it returns nil.
unfoldable pub atomic_write_calls : Faults → Text → Text → List Syscall × Bool
unfolding finish
atomic_write_calls f path bytes = if f.open_fails then ([], false) else (
  create (tmp_path path)
      ∷ write (tmp_path path) (if f.write_fails then take f.written bytes else bytes)
      ∷ (finish f path (tmp_path path)).0,
  (finish f path (tmp_path path)).1,
)

unfoldable pub atomic_write_file : Faults → Fs → Text → Text → Fs × Bool
unfolding atomic_write_calls
atomic_write_file f fs path bytes =
    (apply_all (atomic_write_calls f path bytes).0 fs, (atomic_write_calls f path bytes).1)
