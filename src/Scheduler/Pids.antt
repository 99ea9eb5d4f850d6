-- ===== src/Scheduler/Pids.antt =====
-- Pids: a slot and its generation, packed into one word. A pid that has died never lives again.
use velora_os.Base.{
  ℕ, ◌+◌, ◌*◌, ◌/◌, ◌%◌, ◌^◌, ◌<◌, ◌≤◌, ◌≡◌, refl, ap, ◌∙◌, inl, inr, Option, none, some, true,
  false, arith, get_or, set, get_or-set, get_or-set_self, bit_and, lt→ltb, ok, position,
  Option-cases,
}
use velora_os.Base.Bits.{bit_or-shift, bit_and-mask}
use velora_os.Scheduler.Queue.{max_threads}
use velora_os.Scheduler.State.{
  SchedulerState, Thread, thread_at, is_none, is_some, thread_alive, pack_pid, unpack_pid, Pid,
}
use velora_os.Scheduler.Core.{Switch, rotate, retire, take_zombie, populate}
use velora_os.Scheduler.Invariant.{WellFormed, Sound, thread_at-lt}
use velora_os.Scheduler.Invariant.Exits.{zombie-lt}
use velora_os.Scheduler.Invariant.Steps.{position-free, take_zombie-none, take_zombie-some}
use velora_os.Scheduler.Steps.{
  Step, rotates, retires, reaps, populates, writes, Reach, here, next, Reach-Sound,
}

-- While the generation fits the 56 bits left to it, a pid gives back its slot and generation.
pub unpack_pid-pack_pid :
    (slot generation : ℕ)
    → slot < max_threads
    → generation < 2 ^ 56
    → unpack_pid (pack_pid slot generation) ≡ (slot, generation)
unfolding unpack_pid pack_pid
unpack_pid-pack_pid slot g hs hg =
    let small : g * 2 ^ 8 % 2 ^ 64 ≡ g * 2 ^ 8 = omega arith in
    let packed = bit_or-shift 8 g slot (omega arith) in
    rw (small, packed, bit_and-mask 8 (g * 2 ^ 8 + slot) 0xFF refl) (ground arith)

-- A pid has been issued if its slot's generation has come that far.
abbrev pub IsIssued : SchedulerState → Pid → Type 0
IsIssued s p = (unpack_pid p).1 ≤ get_or s.slot_generations (unpack_pid p).0 0

-- Issued, and not alive.
abbrev pub IsDead : SchedulerState → Pid → Type 0
IsDead s p = IsIssued s p × (thread_alive s p ≡ false)

-- Where the occupied slots and the generations stay, so do the pids.
alive_same :
    (s s' : SchedulerState) (p : Pid)
    → ((i : ℕ) → is_some (thread_at s'.threads i) ≡ is_some (thread_at s.threads i))
    → s'.slot_generations ≡ s.slot_generations
    → thread_alive s' p ≡ thread_alive s p
unfolding thread_alive
alive_same s s' p h g = rw (g, h (unpack_pid p).0)

IsDead-same :
    (s s' : SchedulerState) (p : Pid)
    → ((i : ℕ) → is_some (thread_at s'.threads i) ≡ is_some (thread_at s.threads i))
    → s'.slot_generations ≡ s.slot_generations
    → IsDead s p
    → IsDead s' p
IsDead-same s s' p h g d =
    (omega (arith, d.0, ap (λ gs. get_or gs (unpack_pid p).0 0) g), alive_same s s' p h g ∙ d.1)

rotate_keeps :
    (s s' : SchedulerState) (o : Option Switch)
    → rotate s ≡ ok (o, s')
    → (s'.threads ≡ s.threads) × (s'.slot_generations ≡ s.slot_generations)
unfolding rotate
rotate_keeps s s' o e = ground arith

retire_keeps :
    (s s' : SchedulerState) (w : Switch)
    → retire s ≡ ok (w, s')
    → (s'.threads ≡ s.threads) × (s'.slot_generations ≡ s.slot_generations)
unfolding retire
retire_keeps s s' w e = ground arith

populate_does :
    (t : Thread) (s s' : SchedulerState) (id g : ℕ)
    → populate t s ≡ ok (id, g, s')
    → (g ≡ get_or s.slot_generations id 0 + 1)
      × (s'.threads ≡ set s.threads id (some t))
      × (s'.slot_generations ≡ set s.slot_generations id g)
      × (position is_none s.threads ≡ some id)
unfolding populate
populate_does t s s' id g e = ground arith

-- A free slot filled again starts a later generation.
IsDead-populate :
    (t : Thread) (s s' : SchedulerState) (id g : ℕ) (p : Pid)
    → Sound s
    → populate t s ≡ ok (id, g, s')
    → IsDead s p
    → IsDead s' p
unfolding thread_alive
IsDead-populate t s s' id g p w e d =
    let (eg, et, egs, ep) = populate_does t s s' id g e in
    let (lt, free) = position-free s.threads id ep in
    let slot : ℕ = (unpack_pid p).0 in
    let gs =
      ap (λ xs. get_or xs slot 0) egs
      ∙ get_or-set s.slot_generations id slot g 0 (omega (arith, w.table, w.generations)) in
    let ts = ap (λ xs. get_or xs slot none) et ∙ get_or-set s.threads id slot (some t) none lt in
    ground (arith, gs, ts)

IsDead-reap : {s : SchedulerState} (p : Pid) → Sound s → IsDead s p → IsDead (take_zombie s).1 p
unfolding thread_alive
IsDead-reap {s} p w d = elim (Option-cases s.zombie) [
  | inl e ↦ rw (take_zombie-none s e) d
  | inr (id, e) ↦ rw (take_zombie-some s id e) (
      ground (arith, zombie-lt w id e, w.table, get_or-set s.threads id (unpack_pid p).0 none none))
]

IsDead-write :
    (s : SchedulerState) (i : ℕ) (t t' : Thread) (p : Pid)
    → thread_at s.threads i ≡ some t
    → IsDead s p
    → IsDead (record s { threads = set s.threads i (some t') }) p
unfolding thread_alive
IsDead-write s i t t' p e d =
    ground
      (arith, thread_at-lt s.threads i e, get_or-set s.threads i (unpack_pid p).0 (some t') none)

-- No step brings a dead pid back to life.
pub Step-IsDead : {s s' : SchedulerState} (p : Pid) → Step s s' → Sound s → IsDead s p → IsDead s' p
Step-IsDead {s} {s'} p (rotates o e) w d =
    let (ts, gs) = rotate_keeps s s' o e in IsDead-same s s' p (λ i. rw ts) gs d
Step-IsDead {s} {s'} p (retires x e) w d =
    let (ts, gs) = retire_keeps s s' x e in IsDead-same s s' p (λ i. rw ts) gs d
Step-IsDead {s} p (reaps e) w d = rw e (IsDead-reap p w d)
Step-IsDead {s} {s'} p (populates t id g e) w d = IsDead-populate t s s' id g p w e d
Step-IsDead {s} p (writes i t t' e same) w d = rw same (IsDead-write s i t t' p e d)

-- From a sound state, once a pid that was issued is not alive, it is not alive after any sequence of
-- critical sections, exits with a zombie pending included: a later thread in the same slot is never taken for it.
pub Reach-IsDead :
    {s s' : SchedulerState} (p : Pid) → Sound s → Reach s s' → IsDead s p → IsDead s' p
Reach-IsDead p w here d = d
Reach-IsDead p w (next r st) d = Step-IsDead p st (Reach-Sound w r) (Reach-IsDead p w r d)

alive_of :
    (s : SchedulerState) (p : Pid) (slot g : ℕ) (t : Thread)
    → slot < max_threads
    → unpack_pid p ≡ (slot, g)
    → get_or s.threads slot none ≡ some t
    → get_or s.slot_generations slot 0 ≡ g
    → thread_alive s p ≡ true
unfolding thread_alive
alive_of s p slot g t lt e et eg =
    let es : bit_and p 0xFF ≡ slot = ap (λ x. x.0) e in
    let eg' : p / 2 ^ 8 ≡ g = ap (λ x. x.1) e in rw (es, eg', et, eg, lt→ltb _ _ lt) (ground arith)

-- From a well-formed state, the pid that a spawn returns is alive and issued at once, if its
-- generation fits it.
pub populate-alive :
    (t : Thread) {s s' : SchedulerState} (id g : ℕ)
    → WellFormed s
    → populate t s ≡ ok (id, g, s')
    → g < 2 ^ 56
    → (thread_alive s' (pack_pid id g) ≡ true) × IsIssued s' (pack_pid id g)
populate-alive t {s} {s'} id g w e h =
    let (eg, et, egs, ep) = populate_does t s s' id g e in
    let (lt, free) = position-free s.threads id ep in
    let fits = unpack_pid-pack_pid id g (omega (arith, w.table)) h in
    let gs : get_or s'.slot_generations id 0 ≡ g =
      rw egs (get_or-set_self s.slot_generations id g 0 (omega (arith, w.table, w.generations))) in
    let ts : get_or s'.threads id none ≡ some t =
      rw et (get_or-set_self s.threads id (some t) none lt) in
    (
      alive_of s' (pack_pid id g) id g t (omega (arith, w.table)) fits ts gs,
      rw fits (omega (arith, gs)),
    )
