-- ===== src/Scheduler/Steps.antt =====
-- The scheduler's state over time: any interleaving of its critical sections.
use velora_os.Base.{
  ℕ, ◌+◌, ◌^◌, ◌<◌, ◌≡◌, ◌≢◌, subst, Option, none, some, arith, ok, length-set, set, get_or,
  position, inl, inr,
}
use velora_os.Scheduler.State.{SchedulerState, Thread, thread_at, is_none}
use velora_os.Scheduler.Core.{Switch, rotate, retire, take_zombie, populate}
use velora_os.Scheduler.Invariant.{WellFormed, Sound, occupied-set_self}
use velora_os.Scheduler.Invariant.Exits.{
  rotated-Sound, retired-Sound, take_zombie-Sound, populated, populated-Sound, written-Sound,
}
use velora_os.Scheduler.Invariant.Steps.{
  rotate-WellFormed, retire-WellFormed, take_zombie-WellFormed, populate-WellFormed, rotate-Rotates,
  retire-Retires, populate-Populates,
}

-- `exit_current_thread` reaps before it takes the lock again with interrupts disabled; a tick between the
-- two may leave another zombie, so `retires` has no condition on it. `writes` is an update of a thread in
-- its slot: a saved stack pointer, a consumed entry point, or a change of its open files.
pub data Step (s s' : SchedulerState) : Type 0 where
  rotates : (o : Option Switch) → rotate s ≡ ok (o, s') → Step s s'
  retires : (w : Switch) → retire s ≡ ok (w, s') → Step s s'
  reaps : s' ≡ (take_zombie s).1 → Step s s'
  populates : (t : Thread) (id g : ℕ) → populate t s ≡ ok (id, g, s') → Step s s'
  writes :
      (i : ℕ) (t t' : Thread)
      → thread_at s.threads i ≡ some t
      → s' ≡ record s { threads = set s.threads i (some t') }
      → Step s s'

pub data Reach (s : SchedulerState) : SchedulerState → Type 0 where
  here : Reach s s
  next : {t u : SchedulerState} → Reach s t → Step t u → Reach s u

-- The thread that runs is not the boot thread, if it retires.
pub retire-current : (s s' : SchedulerState) (w : Switch) → retire s ≡ ok (w, s') → s.current ≢ 0
unfolding retire
retire-current s s' w e z = ground arith

pub populate-slot :
    (t : Thread) (s s' : SchedulerState) (id g : ℕ)
    → populate t s ≡ ok (id, g, s')
    → (position is_none s.threads ≡ some id) × (get_or s.slot_generations id 0 + 1 < 2 ^ 64)
unfolding populate
populate-slot t s s' id g e = ground arith

-- Every step keeps what does not depend on the zombies that exits overwrite.
pub Step-Sound : {s s' : SchedulerState} → Step s s' → Sound s → Sound s'
Step-Sound {s} {s'} (rotates o e) w = elim (rotate-Rotates w) [
  | inl (c, e') ↦ let same : s ≡ s' = cc in subst Sound same w
  | inr (id, t, q, et, e', v, c) ↦
      let same : record s { ready_queue = q; current = id } ≡ s' = cc in
      subst Sound same (rotated-Sound s id q w v c)
]
Step-Sound {s} {s'} (retires x e) w =
    let h : s.current ≢ 0 = retire-current s s' x e in
    let (id, t, q, et, e', v, c) = retire-Retires w h in
    let same : record s { ready_queue = q; current = id; zombie = some s.current } ≡ s' = cc in
    subst Sound same (retired-Sound s id q w h v c)
Step-Sound {s} (reaps e) w = rw e (take_zombie-Sound w)
Step-Sound {s} {s'} (populates t id g e) w =
    let (p, h) = populate-slot t s s' id g e in
    let (q, e', v, c) = populate-Populates t id w p h in
    let same : populated s t id q ≡ s' = cc in subst Sound same (populated-Sound s id t q w p v c)
Step-Sound {s} (writes i t t' e same) w = rw same (written-Sound s i t t' w e)

-- From a sound state, every sequence of critical sections, in any order, an exit with a zombie pending
-- included, ends in a sound state: no slot has two roles, whatever waits, runs or is a zombie is a
-- thread in the table, and the boot thread waits or runs.
pub Reach-Sound : {s t : SchedulerState} → Sound s → Reach s t → Sound t
Reach-Sound w here = w
Reach-Sound w (next r st) = Step-Sound st (Reach-Sound w r)

-- No exit overwrites a pending zombie.
abbrev pub Tidy : {s s' : SchedulerState} → Step s s' → Type 0
Tidy {s} (retires x e) = s.zombie ≡ none
Tidy (rotates o e) = Unit
Tidy (reaps e) = Unit
Tidy (populates t id g e) = Unit
Tidy (writes i t t' e same) = Unit

abbrev pub AllTidy : {s t : SchedulerState} → Reach s t → Type 0
AllTidy here = Unit
AllTidy (next r st) = AllTidy r × Tidy st

-- Such a step keeps the full invariant.
pub Step-WellFormed :
    {s s' : SchedulerState} (st : Step s s') → Tidy st → WellFormed s → WellFormed s'
Step-WellFormed {s} {s'} (rotates o e) z w =
    let (o', t, e', w') = rotate-WellFormed w in let same : t ≡ s' = cc in subst WellFormed same w'
Step-WellFormed {s} {s'} (retires x e) z w =
    let (o', t, e', w') = retire-WellFormed w (retire-current s s' x e) z in
    let same : t ≡ s' = cc in subst WellFormed same w'
Step-WellFormed {s} (reaps e) z w = rw e (take_zombie-WellFormed w).0
Step-WellFormed {s} {s'} (populates t id g e) z w =
    let (p, h) = populate-slot t s s' id g e in
    let (g', t', e', w') = populate-WellFormed t id w p h in
    let same : t' ≡ s' = cc in subst WellFormed same w'
Step-WellFormed {s} (writes i t t' e same) z w = rw same (record {
  table = omega (arith, w.table, length-set s.threads i (some t'));
  generations = w.generations;
  queue = w.queue;
  roles = λ j. omega (arith, w.roles j, occupied-set_self s.threads i j t t' e);
  boot = w.boot;
  boot_there = omega (arith, w.boot_there, occupied-set_self s.threads i 0 t t' e);
})

-- From a well-formed state, every sequence of critical sections, in any order, in which no thread exits
-- while a zombie is pending, ends in a well-formed state: each thread in the table waits, runs, or is the
-- zombie, and only one of these.
pub Reach-WellFormed :
    {s t : SchedulerState} → WellFormed s → (r : Reach s t) → AllTidy r → WellFormed t
Reach-WellFormed w here z = w
Reach-WellFormed w (next r st) z = Step-WellFormed st z.1 (Reach-WellFormed w r z.0)
