-- ===== src/AtomicFile/Tests.antt =====
-- atomicfile.go: concrete writes, and the theorems there.
use pevo_pinner.Prelude.{◌≡◌, refl, true, false, none, some}
use pevo_pinner.Prelude.Text.{Text, codes, same}
use pevo_pinner.AtomicFile.{Fs, Faults, update, tmp_path, atomic_write_file}

abbrev pins : Text
pins = codes "pins.json"

abbrev disk : Fs
disk = update (λ p. none) pins (some (codes "[]"))

abbrev no_faults : Faults
no_faults = record {
  open_fails = false;
  write_fails = false;
  written = 0;
  sync_fails = false;
  close_fails = false;
  rename_fails = false;
  remove_fails = false;
}

abbrev full_disk : Faults
full_disk = record no_faults { write_fails = true; written = 1 }

writes :
    ((atomic_write_file no_faults disk pins (codes "[1]")).0 pins ≡ some (codes "[1]"))
    × ((atomic_write_file full_disk disk pins (codes "[1]")).0 pins ≡ some (codes "[]"))
    × ((atomic_write_file full_disk disk pins (codes "[1]")).0 (tmp_path pins) ≡ none)
unfolding atomic_write_file same
writes = (refl, refl, refl)
