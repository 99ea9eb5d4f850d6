-- ===== src/Syscall/Numbers.antt =====
-- syscall.rs: the numbers of the calls.
use velora_os.Base.{ℕ}

abbrev pub sys_write : ℕ
sys_write = 0

abbrev pub sys_read : ℕ
sys_read = 1

abbrev pub sys_exit : ℕ
sys_exit = 2

abbrev pub sys_open : ℕ
sys_open = 3

abbrev pub sys_close : ℕ
sys_close = 4

abbrev pub sys_spawn : ℕ
sys_spawn = 5

abbrev pub sys_wait : ℕ
sys_wait = 6
