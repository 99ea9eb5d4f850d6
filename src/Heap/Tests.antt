-- ===== src/Heap/Tests.antt =====
-- The heap on a table in one frame.
use velora_os.Base.{
  ℕ, zero, suc, ◌+◌, ◌-◌, ◌%◌, ◌<◌, ◌≤◌, ◌≡◌, ◌≢◌, ◌⊎◌, refl, sym, ap, List, [], ◌∷◌, append-nil,
  none, some, ok, arith, length, subst,
}
use velora_os.Elf.Contents.{All, Distinct}
use velora_os.Elf.Tests.{one_table, empty_entry}
use velora_os.Heap.{HeapSpace, done, heap_start, heap_size, init_heap}
use velora_os.Heap.Laws.{At, init_heap-Maps}
use velora_os.Memory.Frames.{FrameAllocator}
use velora_os.Memory.Frames.Laws.{pool}
use velora_os.Memory.Tests.{four_levels}

-- `n` frames from `start` on.
frames_from : ℕ → ℕ → List ℕ
frames_from zero start = []
frames_from (suc n) start = start ∷ frames_from n (start + 4096)

length-frames_from : (n start : ℕ) → length (frames_from n start) ≡ n
unfolding frames_from
length-frames_from zero start = refl
length-frames_from (suc n) start = ap suc (length-frames_from n (start + 4096))

frames_from-above : (n start x : ℕ) → x < start → All (λ y. y ≢ x) (frames_from n start)
unfolding frames_from
frames_from-above zero start x h = tt
frames_from-above (suc n) start x h =
    (λ e. omega (arith, e), frames_from-above n (start + 4096) x (omega arith))

frames_from-Distinct : (n start : ℕ) → Distinct (frames_from n start)
unfolding frames_from
frames_from-Distinct zero start = tt
frames_from-Distinct (suc n) start =
    (frames_from-above n (start + 4096) start (omega arith), frames_from-Distinct n (start + 4096))

abbrev some_frames : FrameAllocator
some_frames = record {
  memory_map = [];
  region_index = 0;
  next_frame_addr = 0;
  free_list = some (frames_from 4096 0x100000);
}

pooled : pool four_levels some_frames ≡ frames_from 4096 0x100000
pooled = append-nil (frames_from 4096 0x100000)

abbrev fresh : HeapSpace
fresh = record { tables = λ f i. empty_entry; allocator = some_frames; heap = none }

init_heap-Maps_example :
    (s' : HeapSpace) × (init_heap four_levels one_table.map_to fresh ≡ ok (done, s'))
    × (s'.heap ≡ some (heap_start, heap_size))
    × ((a : ℕ)
        → heap_start ≤ a
        → a < heap_start + heap_size
        → (f : ℕ) × (one_table.frame_of s'.tables (a - a % 4096) ≡ some f))
    × ((k j f g : ℕ)
        → k < j
        → j < 1024
        → At four_levels one_table s' heap_start k f
        → At four_levels one_table s' heap_start j g
        → f ≢ g)
    × ((q : ℕ)
        → (q < heap_start) ⊎ (heap_start + heap_size ≤ q)
        → one_table.frame_of s'.tables q ≡ one_table.frame_of fresh.tables q)
init_heap-Maps_example =
    init_heap-Maps four_levels one_table fresh (record { cursor = λ r e. absurd cc })
      (subst Distinct (sym pooled) (frames_from-Distinct 4096 0x100000))
      (omega (arith, ap length pooled, length-frames_from 4096 0x100000)) (λ k h. refl)
