-- ===== src/Syscall/Copy.antt =====
-- syscall.rs: the checked copies from and to the calling thread.
pub mod Laws
pub mod Rounds
use velora_os.Base.{ℕ, Bool, true, false, List, ok, panic, stuck, length, if◌then◌else◌}
use velora_os.Memory.Walk.{user_range_ok}
use velora_os.Syscall.World.{World, Platform, Call, ◌>>=◌, ◌>>◌, return, lift, kill_current_thread}
use velora_os.Syscall.Access.{load_bytes, store_bytes}
use Prim.Native.String.{String}

module _ (E : Platform) where
  -- `if !user_range_ok(..) { kill_current_thread(..) }`
  unfoldable pub check_range : String → ℕ → ℕ → Bool → Call (Unit {0})
  unfolding kill_current_thread
  check_range reason ptr len need_write w =
      elim (user_range_ok E.paging w.kernel.tables w.kernel.cr3 ptr len need_write) [
        | panic ↦ panic
        | stuck ↦ stuck
        | ok fine ↦ if fine then return tt w else kill_current_thread E reason w
      ]

  unfoldable pub copy_from_user : ℕ → ℕ → Call (List ℕ)
  unfolding check_range load_bytes
  copy_from_user ptr len = do
    check_range "syscall argument pointer not mapped for read" ptr len false
    λ w. lift (load_bytes E.paging w.kernel.tables w.kernel.cr3 w.frames ptr len) w

  unfoldable pub copy_to_user : ℕ → List ℕ → Call (Unit {0})
  unfolding check_range store_bytes
  copy_to_user ptr bytes = do
    check_range "syscall argument pointer not mapped for write" ptr (length bytes) true
    frames ← λ w. lift (store_bytes E.paging w.kernel.tables w.kernel.cr3 ptr bytes w.frames) w
    λ w. return tt (record w { frames = frames })
