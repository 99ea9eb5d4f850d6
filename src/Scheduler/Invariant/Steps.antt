-- ===== src/Scheduler/Invariant/Steps.antt =====
-- Every critical section keeps the invariant, and panics only where it is said to.
use velora_os.Base.{
  ℕ, zero, suc, ◌+◌, ◌^◌, ◌<◌, ◌≡◌, ◌≢◌, refl, sym, ap, Option, none, some, List, [], ◌∷◌, ◌++◌,
  arith, length, count, get_or, set, count-append, length-set, ok, panic, position, ◌⊎◌, inl, inr,
  Option-cases, lt→ltb,
}
use velora_os.Base.Count.{one_at}
use velora_os.Scheduler.Queue.{ReadyQueue, IsValid, contents, max_threads}
use velora_os.Scheduler.Queue.Laws.{length-contents, push_back-ok, pop_front-Pops}
use velora_os.Scheduler.State.{SchedulerState, Thread, thread_at, is_none}
use velora_os.Scheduler.Core.{Switch, populate, rotate, retire, take_zombie, switch_into}
use velora_os.Scheduler.Invariant.{
  WellFormed, Sound, WellFormed-Sound, occupied, waiting_room, current-there, there, occupied-set,
  occupied-lt, occupied-le,
}

-- What `rotate` may do.
abbrev pub Rotates : SchedulerState → Type 0
Rotates s =
    ((contents s.ready_queue ≡ []) × (rotate s ≡ ok (none, s)))
    ⊎ ((next : ℕ) × (t : Thread) × (q : ReadyQueue) × (thread_at s.threads next ≡ some t)
        × (rotate s ≡ ok (some (switch_into s t), record s { ready_queue = q; current = next }))
        × IsValid q
        × (contents s.ready_queue ++ (s.current ∷ []) ≡ next ∷ contents q))

-- The head of the queue waits, and its tail is shorter.
head_waits :
    (s : SchedulerState) (next : ℕ) (q : ReadyQueue)
    → contents s.ready_queue ≡ next ∷ contents q
    → (0 < count next (contents s.ready_queue)) × (q.len + 1 ≡ s.ready_queue.len)
head_waits s next q c = (
  rw c (ground arith),
  omega (arith, ap length c, length-contents s.ready_queue, length-contents q),
)

pub rotate-Rotates : {s : SchedulerState} → Sound s → Rotates s
unfolding rotate
rotate-Rotates {s} w = elim (pop_front-Pops s.ready_queue w.queue) [
  | inl (e, r) ↦ inl (e, ground (arith, r))
  | inr (next, q, e, v, c) ↦
      let h = head_waits s next q c in
      let (t, et) = there s next w h.0 in
      let (p, ep) = current-there w in
      let (q', e', v', c') = push_back-ok q s.current v (omega (arith, h.1, waiting_room w)) in
      inr (next, t, q', et, ground (arith, e, e', et, ep), v', rw c (ap (λ xs. next ∷ xs) (sym c')))
]

-- What a well-formed state keeps when its queue turns by one.
pub rotated-roles :
    (s : SchedulerState) (next : ℕ) (q : ReadyQueue)
    → contents s.ready_queue ++ (s.current ∷ []) ≡ next ∷ contents q
    → (i : ℕ)
    → count i (contents q) + one_at next i ≡ count i (contents s.ready_queue) + one_at s.current i
rotated-roles s next q c i =
    omega (arith, ap (count i) c, count-append i (contents s.ready_queue) (s.current ∷ []))

pub rotated-WellFormed :
    (s : SchedulerState) (next : ℕ) (q : ReadyQueue)
    → WellFormed s
    → IsValid q
    → contents s.ready_queue ++ (s.current ∷ []) ≡ next ∷ contents q
    → WellFormed (record s { ready_queue = q; current = next })
rotated-WellFormed s next q w v c = record {
  table = w.table;
  generations = w.generations;
  queue = v;
  roles = λ i. omega (arith, w.roles i, rotated-roles s next q c i);
  boot = w.boot;
  boot_there = w.boot_there;
}

-- From a well-formed state the critical section of `schedule` never panics, and ends in a
-- well-formed state.
pub rotate-WellFormed :
    {s : SchedulerState}
    → WellFormed s
    → (o : Option Switch) × (s' : SchedulerState) × (rotate s ≡ ok (o, s')) × WellFormed s'
rotate-WellFormed {s} w = elim (rotate-Rotates (WellFormed-Sound w)) [
  | inl (c, e) ↦ (none, s, e, w)
  | inr (next, t, q, et, e, v, c) ↦ (
    some (switch_into s t),
    record s { ready_queue = q; current = next },
    e,
    rotated-WellFormed s next q w v c,
  )
]

-- What `retire` does to a thread other than the boot thread.
abbrev pub Retires : SchedulerState → Type 0
Retires s =
    (next : ℕ) × (t : Thread) × (q : ReadyQueue) × (thread_at s.threads next ≡ some t)
    × (retire s
        ≡ ok (
          switch_into s t,
          record s { ready_queue = q; current = next; zombie = some s.current },
        ))
    × IsValid q
    × (contents s.ready_queue ≡ next ∷ contents q)

pub retire-Retires : {s : SchedulerState} → Sound s → s.current ≢ 0 → Retires s
unfolding retire
retire-Retires {s} w h = elim (pop_front-Pops s.ready_queue w.queue) [
  | inl (e, r) ↦ absurd (omega (arith, w.boot_role, ap (count 0) e, other_one s.current h))
  | inr (next, q, e, v, c) ↦
      let (t, et) = there s next w (head_waits s next q c).0 in
      let (p, ep) = current-there w in (next, t, q, et, ground (arith, e, et, ep), v, c)
]
  where
    other_one : (c : ℕ) → c ≢ 0 → one_at c 0 ≡ 0
    other_one c h = ground arith

-- From a well-formed state with no zombie pending, the critical section of `exit_current_thread`
-- never panics for a thread other than the boot thread, and ends in a well-formed state.
pub retire-WellFormed :
    {s : SchedulerState}
    → WellFormed s
    → s.current ≢ 0
    → s.zombie ≡ none
    → (w : Switch) × (s' : SchedulerState) × (retire s ≡ ok (w, s')) × WellFormed s'
retire-WellFormed {s} w h z =
    let (next, t, q, et, e, v, c) = retire-Retires (WellFormed-Sound w) h in
    (
      switch_into s t,
      record s { ready_queue = q; current = next; zombie = some s.current },
      e,
      record {
        table = w.table;
        generations = w.generations;
        queue = v;
        roles = λ i. ground (arith, w.roles i, ap (count i) c);
        boot = ground arith;
        boot_there = w.boot_there;
      },
    )

pub take_zombie-none : (s : SchedulerState) → s.zombie ≡ none → take_zombie s ≡ (none, s)
unfolding take_zombie
take_zombie-none s e = ground arith

-- The state once the zombie in slot `id` is gone.
abbrev pub reaped : SchedulerState → ℕ → SchedulerState
reaped s id = record s { threads = set s.threads id none; zombie = none }

pub take_zombie-some :
    (s : SchedulerState) (id : ℕ)
    → s.zombie ≡ some id
    → take_zombie s ≡ (thread_at s.threads id, reaped s id)
unfolding take_zombie
take_zombie-some s id e = ground arith

module _ {s : SchedulerState} (w : WellFormed s) (id : ℕ) (e : s.zombie ≡ some id) where
  zombie-role :
      (i : ℕ)
      → count i (contents s.ready_queue) + one_at s.current i + one_at id i ≡ occupied s.threads i
  zombie-role i = ground (arith, w.roles i)

  pub zombie-lt : id < max_threads
  zombie-lt = ground (arith, w.table, zombie-role id, occupied-lt s.threads id)

  reaped-WellFormed : WellFormed (reaped s id)
  reaped-WellFormed = record {
    table = omega (arith, w.table, length-set s.threads id none);
    generations = w.generations;
    queue = w.queue;
    roles = λ i. ground (
      arith,
      zombie-role i,
      occupied-le s.threads i,
      zombie-lt,
      w.table,
      occupied-set s.threads id i none,
    );
    boot = refl;
    boot_there =
        ground (arith, w.boot, w.boot_there, zombie-lt, w.table, occupied-set s.threads id 0 none);
  }

-- `reap_zombie`'s locked part keeps the invariant, and leaves no zombie.
pub take_zombie-WellFormed :
    {s : SchedulerState}
    → WellFormed s
    → WellFormed (take_zombie s).1 × ((take_zombie s).1.zombie ≡ none)
take_zombie-WellFormed {s} w = elim (Option-cases s.zombie) [
  | inl e ↦ rw (take_zombie-none s e) (w, e)
  | inr (id, e) ↦ rw (take_zombie-some s id e) (reaped-WellFormed w id e, refl)
]

-- What `populate` does with the first free slot.
abbrev pub Populates : Thread → SchedulerState → ℕ → Type 0
Populates t s id =
    let g = get_or s.slot_generations id 0 + 1 in
    (q : ReadyQueue) × (populate t s
      ≡ ok (
        id,
        g,
        record s {
          threads = set s.threads id (some t);
          ready_queue = q;
          slot_generations = set s.slot_generations id g;
        },
      ))
    × IsValid q
    × (contents q ≡ contents s.ready_queue ++ (id ∷ []))

pub populate-Populates :
    (t : Thread) {s : SchedulerState} (id : ℕ)
    → Sound s
    → position is_none s.threads ≡ some id
    → get_or s.slot_generations id 0 + 1 < 2 ^ 64
    → Populates t s id
unfolding populate
populate-Populates t {s} id w p g =
    let (q, e, v, c) = push_back-ok s.ready_queue id w.queue (waiting_room w) in
    (q, rw (p, e, lt→ltb _ _ g), v, c)

pub position-free :
    (ts : List (Option Thread)) (i : ℕ)
    → position is_none ts ≡ some i
    → (i < length ts) × (thread_at ts i ≡ none)
unfolding is_none thread_at
position-free [] i h = cc
position-free (none ∷ ts) zero h = (omega arith, refl)
position-free (none ∷ ts) (suc i) h = cc
position-free (some t ∷ ts) zero h = ground arith
position-free (some t ∷ ts) (suc i) h = ground (arith, position-free ts i)

-- `spawn`'s critical section keeps the invariant: with a free slot, and the slot's generation not
-- at its limit, it never panics.
pub populate-WellFormed :
    (t : Thread) {s : SchedulerState} (id : ℕ)
    → WellFormed s
    → position is_none s.threads ≡ some id
    → get_or s.slot_generations id 0 + 1 < 2 ^ 64
    → (g : ℕ) × (s' : SchedulerState) × (populate t s ≡ ok (id, g, s')) × WellFormed s'
populate-WellFormed t {s} id w p h =
    let (q, e, v, c) = populate-Populates t id (WellFormed-Sound w) p h in
    let (lt, free) = position-free s.threads id p in
    let g : ℕ = get_or s.slot_generations id 0 + 1 in
    (
      g,
      record s {
        threads = set s.threads id (some t);
        ready_queue = q;
        slot_generations = set s.slot_generations id g;
      },
      e,
      record {
        table = omega (arith, w.table, length-set s.threads id (some t));
        generations = omega (arith, w.generations, length-set s.slot_generations id g);
        queue = v;
        roles = λ i. ground (
          arith,
          w.roles i,
          free,
          occupied-set s.threads id i (some t) lt,
          ap (count i) c,
          count-append i (contents s.ready_queue) (id ∷ []),
        );
        boot = w.boot;
        boot_there = ground (arith, w.boot_there, occupied-set s.threads id 0 (some t) lt);
      },
    )

-- A spawn that finds no free slot in the thread table panics.
pub populate-full :
    (t : Thread) (s : SchedulerState) → position is_none s.threads ≡ none → populate t s ≡ panic
unfolding populate
populate-full t s e = rw e
