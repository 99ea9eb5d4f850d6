-- ===== src/Scheduler/Files/Tables.antt =====
-- The operations on open files leave the thread in its address space.
use velora_os.Base.{ℕ, ◌≡◌, arith, List, Option, ok, Ensures, Ensures-map, Ensures-result}
use velora_os.Scheduler.State.{Thread}
use velora_os.Scheduler.Files.{open_file, read_open_file, close_file}

read_result :
    (fd len : ℕ) (t t' : Thread) (o : Option (List ℕ))
    → read_open_file fd len t ≡ ok (o, t')
    → t'.page_table ≡ t.page_table
unfolding read_open_file
read_result fd len t t' o e = ground arith

pub read_open_file-table :
    (fd len : ℕ) (t : Thread)
    → Ensures (λ r. r.1.page_table ≡ t.page_table) (read_open_file fd len t)
read_open_file-table fd len t =
    Ensures-map (λ r. read_open_file fd len t ≡ ok r) (λ r. r.1.page_table ≡ t.page_table)
      (read_open_file fd len t) (Ensures-result (read_open_file fd len t))
      (λ (o, t') e. read_result fd len t t' o e)

pub open_file-table :
    (bytes : List ℕ) (t : Thread) → (open_file bytes t).1.page_table ≡ t.page_table
unfolding open_file
open_file-table bytes t = ground arith

pub close_file-table : (fd : ℕ) (t : Thread) → (close_file fd t).1.page_table ≡ t.page_table
unfolding close_file
close_file-table fd t = ground arith
