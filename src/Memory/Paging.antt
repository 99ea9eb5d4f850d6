-- ===== src/Memory/Paging.antt =====
-- What memory.rs and elf.rs use of the x86_64 crate's addresses, as its documentation gives it.
use velora_os.Base.{ℕ, ◌+◌, ◌-◌, ◌*◌, ◌%◌, ◌^◌, ◌<◌, ◌≡◌, Option, some}

-- Addresses, frames and pages are numbers: a frame or a page is its start address.
pub record Paging : Type 0 where
  -- `VirtAddr::try_new`
  pub try_new : ℕ → Option ℕ
  -- `PhysFrame::containing_address`
  pub frame_containing : ℕ → ℕ
  -- `Page::containing_address`
  pub page_containing : ℕ → ℕ
  -- `p1_index` to `p4_index`
  pub index : ℕ → ℕ → ℕ
  pub page_offset : ℕ → ℕ
  -- `page + n`; `none` where it panics
  pub page_add : ℕ → ℕ → Option ℕ
  pub try_new-low : (a : ℕ) → a < 2 ^ 47 → try_new a ≡ some a
  pub frame_containing-aligned : (a : ℕ) → a % 4096 ≡ 0 → frame_containing a ≡ a
  pub page_containing_lem : (a : ℕ) → page_containing a ≡ a - a % 4096
  pub page_offset_lem : (a : ℕ) → page_offset a ≡ a % 4096
  pub page_add-low : (p n : ℕ) → p + n * 4096 < 2 ^ 47 → page_add p n ≡ some (p + n * 4096)
  pub index-lt : (level a : ℕ) → index level a < 512
  -- Every address of a page has the page's indexes.
  pub index-page :
      (a : ℕ)
      → (index 4 (a - a % 4096) ≡ index 4 a)
        × (index 3 (a - a % 4096) ≡ index 3 a)
        × (index 2 (a - a % 4096) ≡ index 2 a)
        × (index 1 (a - a % 4096) ≡ index 1 a)
