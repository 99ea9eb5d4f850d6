-- ===== src/Scheduler/Leaks.antt =====
-- A thread that exits while another one's cleanup is pending.
use velora_os.Base.{
  ℕ, ◌+◌, ◌≡◌, ◌≢◌, ap, subst, none, some, [], ◌∷◌, ◌++◌, arith, count, count-append, ok, inl, inr,
  Option-cases,
}
use velora_os.Base.Count.{one_at}
use velora_os.Scheduler.Queue.{ReadyQueue, contents}
use velora_os.Scheduler.State.{SchedulerState}
use velora_os.Scheduler.Core.{Switch, retire}
use velora_os.Scheduler.Invariant.{
  Sound, occupied, occupied-le, occupied-set, occupied-set_self, zombie_at,
}
use velora_os.Scheduler.Invariant.Steps.{
  rotate-Rotates, rotated-roles, retire-Retires, populate-Populates, take_zombie-none,
  take_zombie-some, position-free,
}
use velora_os.Scheduler.Invariant.Exits.{zombie-lt, zombie_roles, populated}
use velora_os.Scheduler.Steps.{
  Step, rotates, retires, reaps, populates, writes, Reach, here, next, Step-Sound, Reach-Sound,
  populate-slot, retire-current,
}

-- The slot holds a thread that does not wait, does not run, and is not to be cleaned up.
abbrev pub Leaked : SchedulerState → ℕ → Type 0
Leaked s i =
    (occupied s.threads i ≡ 1)
    × (count i (contents s.ready_queue) + one_at s.current i + zombie_at s.zombie i ≡ 0)

populated-Leaked :
    (s : SchedulerState) (id i : ℕ) (q : ReadyQueue)
    → occupied s.threads id ≡ 0
    → occupied s.threads i ≡ 1
    → contents q ≡ contents s.ready_queue ++ (id ∷ [])
    → count i (contents q) ≡ count i (contents s.ready_queue)
populated-Leaked s id i q free taken c =
    ground (arith, ap (count i) c, count-append i (contents s.ready_queue) (id ∷ []))

Step-Leaked : {s s' : SchedulerState} (i : ℕ) → Step s s' → Sound s → Leaked s i → Leaked s' i
Step-Leaked {s} {s'} i (rotates o e) w (there_, alone) = elim (rotate-Rotates w) [
  | inl (c, e') ↦ let same : s ≡ s' = cc in subst (λ x. Leaked x i) same (there_, alone)
  | inr (id, t, q, et, e', v, c) ↦
      let same : record s { ready_queue = q; current = id } ≡ s' = cc in
      subst (λ x. Leaked x i) same (there_, omega (arith, alone, rotated-roles s id q c i))
]
Step-Leaked {s} {s'} i (retires x e) w (there_, alone) =
    let h : s.current ≢ 0 = retire-current s s' x e in
    let (id, t, q, et, e', v, c) = retire-Retires w h in
    let same : record s { ready_queue = q; current = id; zombie = some s.current } ≡ s' = cc in
    subst (λ x. Leaked x i) same (there_, ground (arith, alone, ap (count i) c))
Step-Leaked {s} i (reaps e) w (there_, alone) = rw e (elim (Option-cases s.zombie) [
  | inl z ↦ rw (take_zombie-none s z) (there_, alone)
  | inr (id, z) ↦ rw (take_zombie-some s id z) (
    ground (arith, there_, alone, zombie-lt w id z, w.table, occupied-set s.threads id i none),
    ground (arith, alone),
  )
])
Step-Leaked {s} {s'} i (populates t id g e) w (there_, alone) =
    let (p, h) = populate-slot t s s' id g e in
    let (q, e', v, c) = populate-Populates t id w p h in
    let (lt, free) = position-free s.threads id p in
    let same : populated s t id q ≡ s' = cc in
    subst (λ x. Leaked x i) same
      (
        ground (arith, there_, occupied-set s.threads id i (some t) lt),
        omega (arith, alone, populated-Leaked s id i q (ground (arith, free)) there_ c),
      )
Step-Leaked {s} i (writes j t t' e same) w (there_, alone) =
    rw same (omega (arith, there_, occupied-set_self s.threads j i t t' e), alone)

Reach-Leaked : {s t : SchedulerState} (i : ℕ) → Sound s → Reach s t → Leaked s i → Leaked t i
Reach-Leaked i w here l = l
Reach-Leaked i w (next r st) l = Step-Leaked i st (Reach-Sound w r) (Reach-Leaked i w r l)

-- From a sound state, an exit with the zombie `id` pending loses that zombie for good: after any further
-- sequence of critical sections its slot still holds the thread, which never waits, runs, or is cleaned
-- up.
pub retire-Leaked :
    {s s' t : SchedulerState} (id : ℕ) (x : Switch)
    → Sound s
    → s.zombie ≡ some id
    → retire s ≡ ok (x, s')
    → Reach s' t
    → Leaked t id
retire-Leaked {s} {s'} id x w z e r =
    let h : s.current ≢ 0 = retire-current s s' x e in
    let (new, t, q, et, e', v, c) = retire-Retires w h in
    let same : record s { ready_queue = q; current = new; zombie = some s.current } ≡ s' = cc in
    let roles = zombie_roles w id z id in
    let start : Leaked s' id =
      subst (λ y. Leaked y id) same
        (
          ground (arith, roles, occupied-le s.threads id),
          ground (arith, roles, occupied-le s.threads id, ap (count id) c),
        ) in
    Reach-Leaked id (Step-Sound (retires x e) w) r start
