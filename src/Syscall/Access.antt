-- ===== src/Syscall/Access.antt =====
-- Memory of the calling thread, through the active page table: what `copy_nonoverlapping` does in
-- syscall.rs, one byte at a time.
pub mod Laws
use velora_os.Base.{
  ℕ, zero, suc, ◌+◌, ◌-◌, ◌%◌, List, [], ◌∷◌, Outcome, ok, ◌>>=◌, ◌&&◌, ◌==◌, expect, if◌then◌else◌,
}
use velora_os.Memory.Paging.{Paging}
use velora_os.Memory.Walk.{Tables, translate_addr}

-- A physical address is a frame and a place in it.
abbrev pub fetch : (ℕ → ℕ → ℕ) → ℕ → ℕ
fetch frames p = frames (p - p % 4096) (p % 4096)

abbrev pub stored : (ℕ → ℕ → ℕ) → ℕ → ℕ → ℕ → ℕ → ℕ
stored frames p byte f j = if f == p - p % 4096 && j == p % 4096 then byte else frames f j

module _ (P : Paging) (tables : Tables) (cr3 : ℕ) where
  -- The reads of `copy_nonoverlapping`: `n` bytes from `ptr` on. A page fault in the kernel halts it.
  unfoldable pub load_bytes : (ℕ → ℕ → ℕ) → ℕ → ℕ → Outcome (List ℕ)
  load_bytes frames ptr zero = ok []
  load_bytes frames ptr (suc n) = do
    found ← translate_addr P tables cr3 ptr
    p ← expect found
    bytes ← load_bytes frames (ptr + 1) n
    ok (fetch frames p ∷ bytes)

  -- Its writes.
  unfoldable pub store_bytes : ℕ → List ℕ → (ℕ → ℕ → ℕ) → Outcome (ℕ → ℕ → ℕ)
  store_bytes ptr [] frames = ok frames
  store_bytes ptr (byte ∷ bytes) frames = do
    found ← translate_addr P tables cr3 ptr
    p ← expect found
    store_bytes (ptr + 1) bytes (stored frames p byte)
