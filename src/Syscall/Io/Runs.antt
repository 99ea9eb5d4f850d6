-- ===== src/Syscall/Io/Runs.antt =====
-- Copies to and from a caller, and reading the file of a small volume through system calls.
use velora_os.Syscall.Copy.Rounds.{At, CopiesBack, copy_from_user-copy_to_user}
use velora_os.Base.{
  ◌%◌, ◌⊎◌, ◌+◌, ◌<◌, ℕ, zero, suc, checked_add, ◌≤◌, ◌≡◌, refl, true, [], ◌∷◌, some, ok, arith,
  take, length,
}
use velora_os.Memory.Walk.{
  Tables, frame, page_accessible, accessible, permits, user_range_ok, scan, walk, translate_addr,
}
use velora_os.Memory.Tests.{four_levels}
use velora_os.Fs.Contents.{content}
use velora_os.Fs.Disks.{disk, disk-length, volume, small_file}
use velora_os.Scheduler.State.{OpenFile, thread_at}
use velora_os.Scheduler.Files.{file_at}
use velora_os.Scheduler.Files.Laws.{IsValid}
use velora_os.Scheduler.Tests.{running, user_thread}
use velora_os.Scheduler.System.Tests.{kernel}
use velora_os.Syscall.World.{World, Platform, returned, kill_current_thread}
use velora_os.Syscall.Copy.{copy_from_user, copy_to_user}
use velora_os.Syscall.Copy.Laws.{Usable}
use velora_os.Syscall.Io.{sys_open, sys_read}
use velora_os.Syscall.Io.Laws.{Delivers}
use velora_os.Syscall.Io.Files.{sys_read-sys_open}
use velora_os.Syscall.Tests.{world, platform}

-- Every page is the caller's, and is in frame 2.
abbrev open_tables : Tables
open_tables f i = record {
  present = true;
  writable = true;
  user_accessible = true;
  target = frame 2;
}

-- The path `a` is at every address.
abbrev reading : World
reading = record world { kernel = record kernel { tables = open_tables }; frames = λ f j. b'a' }

abbrev with_disk : Platform
with_disk = record platform { disk = disk }

user_thread-IsValid : IsValid user_thread
user_thread-IsValid = record { slots = refl; within = no_file }
  where
    no_file : (i : ℕ) (f : OpenFile) → file_at user_thread i ≡ some f → f.offset ≤ length f.bytes
    no_file zero f e = cc
    no_file (suc zero) f e = cc
    no_file (suc (suc zero)) f e = cc
    no_file (suc (suc (suc zero))) f e = cc
    no_file (suc (suc (suc (suc i)))) f e = cc

in_slot_1 : thread_at running.threads running.current ≡ some user_thread
unfolding thread_at
in_slot_1 = refl

usable : (ptr n : ℕ) → Usable four_levels open_tables 0x1000 true ptr n
unfolding page_accessible accessible permits
usable ptr n a lo hi = refl

copied : copy_from_user with_disk 0x400000 1 reading ≡ ok (returned (b'a' ∷ []), reading)
unfolding copy_from_user user_range_ok checked_add scan page_accessible accessible translate_addr
    walk
copied = refl

sys_read-sys_open_example :
    (fd : ℕ) × (w1 : World) × (w2 : World) × (sys_open with_disk 0x400000 1 reading
      ≡ ok (returned fd, w1))
    × (w1.kernel.cr3 ≡ 0x1000)
    × Delivers with_disk w2 0x500000
        (take 256 (take 600 (content disk disk-length volume (2 ∷ 3 ∷ []))))
        (sys_read with_disk fd 0x500000 300 w1)
    × (w2.kernel.cr3 ≡ 0x1000)
sys_read-sys_open_example =
    sys_read-sys_open with_disk reading running user_thread 0x400000 1 0 0x500000 300 (b'a' ∷ [])
      (b'a' ∷ []) (take 600 (content disk disk-length volume (2 ∷ 3 ∷ []))) refl in_slot_1
      user_thread-IsValid (omega arith) refl (omega arith) (omega arith) copied refl small_file
      (omega arith) (omega arith) (omega arith) (usable 0x500000 256)

translated : (a : ℕ) → translate_addr four_levels open_tables 0x1000 a ≡ ok (some (2 + a % 4096))
unfolding translate_addr walk
translated a = refl

two_apart :
    (i j p : ℕ)
    → i < j
    → j < 2
    → At with_disk reading (0x400000 + i) p
    → ¬ At with_disk reading (0x400000 + j) p
two_apart i j p lt le e e' =
    let first : 2 + (0x400000 + i) % 4096 ≡ p = let same = translated (0x400000 + i) in cc in
    let second : 2 + (0x400000 + j) % 4096 ≡ p = let same = translated (0x400000 + j) in cc in
    omega (arith, first, second)

copy_from_user-copy_to_user_example :
    let usable = Usable four_levels open_tables 0x1000 true 0x400000 2 in
    (usable × CopiesBack with_disk reading 0x400000 (65 ∷ 66 ∷ []))
    ⊎ (¬ usable
        × (copy_to_user with_disk 0x400000 (65 ∷ 66 ∷ []) reading
            ≡ kill_current_thread with_disk "syscall argument pointer not mapped for write"
                reading))
copy_from_user-copy_to_user_example =
    copy_from_user-copy_to_user with_disk reading 0x400000 (65 ∷ 66 ∷ []) (omega arith)
      (omega arith) (omega arith) two_apart
