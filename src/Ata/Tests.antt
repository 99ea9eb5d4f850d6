-- ===== src/Ata/Tests.antt =====
-- A drive that is busy once, and has its data at the second look.
use velora_os.Base.{
  ℕ, zero, suc, ◌+◌, ◌*◌, ◌<◌, ◌≤◌, ◌≡◌, refl, false, List, ok, arith, replicate, get_or-replicate,
  length-replicate, if◌then◌else◌, ◌==◌,
}
use velora_os.Fs.Read
use velora_os.Ata.{secondary, Controller, Bus, read_sector}
use velora_os.Ata.Laws.{is_free, has_error, has_data}
use velora_os.Ata.Sectors.{Answers, read_sector-disk}

-- Busy, free, not ready, ready with data.
abbrev statuses : ℕ → ℕ
statuses j = if j == 0 then 0x80 else if j == 3 then 0x48 else 0x40

abbrev blank : ℕ → List ℕ
blank lba = replicate 512 0

abbrev drive : Controller
drive = record { status = statuses; word = λ r i. 0 }

abbrev bus : Bus
bus = record {
  registers = record {
    sector_count = 0;
    lba_low = 0;
    lba_mid = 0;
    lba_high = 0;
    drive_head = 0;
    command = 0;
  };
  status_reads = 0;
  data_reads = 0;
}

busy_once : (j : ℕ) → j < 1 → is_free drive (0 + j) ≡ false
busy_once zero lt = refl
busy_once (suc j) lt = absurd (omega arith)

no_errors : (j : ℕ) → j ≤ 1 → has_error drive (0 + 1 + 1 + j) ≡ false
no_errors zero lt = refl
no_errors (suc zero) lt = refl
no_errors (suc (suc j)) lt = absurd (omega arith)

not_yet : (j : ℕ) → j < 1 → has_data drive (0 + 1 + 1 + j) ≡ false
not_yet zero lt = refl
not_yet (suc j) lt = absurd (omega arith)

drive-Answers : Answers drive 0 1 1
drive-Answers = record {
  soon = omega arith;
  soon_after = omega arith;
  busy = busy_once;
  free = refl;
  no_error = no_errors;
  no_data = not_yet;
  data_there = refl;
}

read_sector-disk_example :
    (b' : Bus) × (read_sector drive secondary 0x1234567 bus ≡ ok (blank 0x1234567, b'))
    × (Read.read_sector blank 0x1234567 ≡ ok (blank 0x1234567))
read_sector-disk_example =
    read_sector-disk drive blank secondary 0x1234567 1 1 bus (omega arith) drive-Answers
      (λ r head count command i lt.
        omega (
          arith,
          get_or-replicate {A = ℕ} 512 (i * 2) 0,
          get_or-replicate {A = ℕ} 512 (i * 2 + 1) 0,
        ))
      (length-replicate {A = ℕ} 512 0) (λ i. omega (arith, get_or-replicate {A = ℕ} 512 i 0))
