-- ===== src/Scheduler/Invariant/Exits.antt =====
-- What every critical section keeps, an exit that overwrites a pending zombie included.
use velora_os.Base.{
  ℕ, ◌+◌, ◌<◌, ◌≤◌, ◌≡◌, ◌≢◌, refl, ap, ◌++◌, none, some, [], ◌∷◌, arith, count, get_or, set,
  count-append, length-set, position, inl, inr, Option-cases,
}
use velora_os.Base.Count.{one_at}
use velora_os.Scheduler.Queue.{ReadyQueue, IsValid, contents, max_threads}
use velora_os.Scheduler.State.{SchedulerState, Thread, thread_at, is_none}
use velora_os.Scheduler.Core.{take_zombie}
use velora_os.Scheduler.Invariant.{
  Sound, occupied, occupied-set, occupied-set_self, occupied-lt, occupied-le,
}
use velora_os.Scheduler.Invariant.Steps.{
  rotated-roles, take_zombie-none, take_zombie-some, reaped, position-free,
}

pub rotated-Sound :
    (s : SchedulerState) (next : ℕ) (q : ReadyQueue)
    → Sound s
    → IsValid q
    → contents s.ready_queue ++ (s.current ∷ []) ≡ next ∷ contents q
    → Sound (record s { ready_queue = q; current = next })
rotated-Sound s next q w v c = record {
  table = w.table;
  generations = w.generations;
  queue = v;
  roles_le = λ i. omega (arith, w.roles_le i, rotated-roles s next q c i);
  boot = w.boot;
  boot_role = omega (arith, w.boot_role, rotated-roles s next q c 0);
}

pub retired-Sound :
    (s : SchedulerState) (next : ℕ) (q : ReadyQueue)
    → Sound s
    → s.current ≢ 0
    → IsValid q
    → contents s.ready_queue ≡ next ∷ contents q
    → Sound (record s { ready_queue = q; current = next; zombie = some s.current })
retired-Sound s next q w h v c = record {
  table = w.table;
  generations = w.generations;
  queue = v;
  roles_le = λ i. ground (arith, w.roles_le i, ap (count i) c);
  boot = ground arith;
  boot_role = ground (arith, w.boot_role, ap (count 0) c);
}

module _ {s : SchedulerState} (w : Sound s) (id : ℕ) (e : s.zombie ≡ some id) where
  pub zombie_roles :
      (i : ℕ)
      → count i (contents s.ready_queue) + one_at s.current i + one_at id i ≤ occupied s.threads i
  zombie_roles i = ground (arith, w.roles_le i)

  pub zombie-lt : id < max_threads
  zombie-lt = ground (arith, w.table, zombie_roles id, occupied-lt s.threads id)

  pub reaped-Sound : Sound (reaped s id)
  reaped-Sound = record {
    table = omega (arith, w.table, length-set s.threads id none);
    generations = w.generations;
    queue = w.queue;
    roles_le = λ i. ground (
      arith,
      zombie_roles i,
      occupied-le s.threads i,
      zombie-lt,
      w.table,
      occupied-set s.threads id i none,
    );
    boot = refl;
    boot_role = w.boot_role;
  }

pub take_zombie-Sound : {s : SchedulerState} → Sound s → Sound (take_zombie s).1
take_zombie-Sound {s} w = elim (Option-cases s.zombie) [
  | inl e ↦ rw (take_zombie-none s e) w
  | inr (id, e) ↦ rw (take_zombie-some s id e) (reaped-Sound w id e)
]

-- The state with a thread in the free slot `id`.
abbrev pub populated : SchedulerState → Thread → ℕ → ReadyQueue → SchedulerState
populated s t id q = record s {
  threads = set s.threads id (some t);
  ready_queue = q;
  slot_generations = set s.slot_generations id (get_or s.slot_generations id 0 + 1);
}

pub populated-Sound :
    (s : SchedulerState) (id : ℕ) (t : Thread) (q : ReadyQueue)
    → Sound s
    → position is_none s.threads ≡ some id
    → IsValid q
    → contents q ≡ contents s.ready_queue ++ (id ∷ [])
    → Sound (populated s t id q)
populated-Sound s id t q w p v c =
    let (lt, free) = position-free s.threads id p in
    let new : (i : ℕ) → count i (contents q) ≡ count i (contents s.ready_queue) + one_at id i =
      λ i. omega (arith, ap (count i) c, count-append i (contents s.ready_queue) (id ∷ [])) in
    record {
      table = omega (arith, w.table, length-set s.threads id (some t));
      generations = omega (
        arith,
        w.generations,
        length-set s.slot_generations id (get_or s.slot_generations id 0 + 1),
      );
      queue = v;
      roles_le =
          λ i. ground (arith, w.roles_le i, free, occupied-set s.threads id i (some t) lt, new i);
      boot = w.boot;
      boot_role = ground (arith, w.boot_role, w.roles_le 0, w.roles_le id, free, new 0);
    }

pub written-Sound :
    (s : SchedulerState) (i : ℕ) (t t' : Thread)
    → Sound s
    → thread_at s.threads i ≡ some t
    → Sound (record s { threads = set s.threads i (some t') })
written-Sound s i t t' w e = record {
  table = omega (arith, w.table, length-set s.threads i (some t'));
  generations = w.generations;
  queue = w.queue;
  roles_le = λ j. omega (arith, w.roles_le j, occupied-set_self s.threads i j t t' e);
  boot = w.boot;
  boot_role = w.boot_role;
}
