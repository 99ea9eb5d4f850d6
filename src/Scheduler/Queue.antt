-- ===== src/Scheduler/Queue.antt =====
-- `ReadyQueue`: the fixed-capacity FIFO of thread ids.
pub mod Laws
use velora_os.Base.{
  ℕ, ◌+◌, ◌-◌, ◌%◌, ◌<◌, ◌≤◌, ◌≡◌, List, Option, none, some, Outcome, ok, panic, ◌>>=◌, ◌>>◌,
  assert, expect, ltb, ◌==◌, if◌then◌else◌, replicate, get_elem?, set, length,
}
use velora_os.Base.Ring.{entries}

abbrev pub max_threads : ℕ
max_threads = 16

abbrev pub ThreadId : Type 0
ThreadId = ℕ

pub record ReadyQueue : Type 0 where
  pub ids : List ThreadId
  pub head : ℕ
  pub len : ℕ

unfoldable pub new : ReadyQueue
new = record { ids = replicate max_threads 0; head = 0; len = 0 }

unfoldable pub push_back : ReadyQueue → ThreadId → Outcome ReadyQueue
push_back q id = do
  assert (ltb q.len max_threads)
  let index = (q.head + q.len) % max_threads
  ok (record q { ids = set q.ids index id; len = q.len + 1 })

-- The id is `none` where the code returns `None`; `self.ids[self.head]` panics out of bounds.
unfoldable pub pop_front : ReadyQueue → Outcome (Option ThreadId × ReadyQueue)
pop_front q = if q.len == 0 then ok (none, q) else (do
  id ← expect (get_elem? q.ids q.head)
  ok (some id, record q { head = (q.head + 1) % max_threads; len = q.len - 1 }))

-- The waiting ids, the next to run first.
abbrev pub contents : ReadyQueue → List ThreadId
contents q = entries 0 max_threads q.ids q.head q.len

pub record IsValid (q : ReadyQueue) : Type 0 where
  pub slots : length q.ids ≡ max_threads
  pub head_in : q.head < max_threads
  pub len_in : q.len ≤ max_threads
