-- ===== src/Keyboard/Idle.antt =====
-- The executor's thread from boot on: it halts only when all that was typed is handled, and it does halt.
use velora_os.Base.{ℕ, zero, suc, ◌<◌, ◌≡◌, true, List, [], ◌∷◌, none, some, Outcome, ok, ◌>>=◌}
use velora_os.Executor.{TaskId, ArrayQueue}
use velora_os.Keyboard
use velora_os.Keyboard.Scancodes.{AtomicWaker, Decoder}
use velora_os.Keyboard.Loop.{next_task, halted, System, run}
use velora_os.Vga.Laws as VgaLaws

module _ (A : ArrayQueue) (W : AtomicWaker) (D : Decoder) (show_task : TaskId → List ℕ)
    (task : TaskId) where
  -- Once `init_queue` and the executor's `spawn` of the task have run.
  pub record Booted (s : System A W D show_task task) : Type 0 where
    pub queue : A.Queue
    pub there : s.keys.scancodes ≡ some queue
    pub nothing_waits : A.contents queue ≡ []
    pub spawned : A.contents s.keys.task_queue ≡ task ∷ []
    pub room : 0 < A.capacity s.keys.task_queue
    pub nobody_registered : W.holds s.keys.waker ≡ none
    pub input : Keyboard.IsValid s.keys.input
    pub screen : VgaLaws.IsValid s.keys.screen
    pub at_loop : s.phase ≡ next_task
    pub enabled : s.interrupts ≡ true
    pub nothing_accepted : s.accepted ≡ []
    pub nothing_delivered : s.delivered ≡ []

  -- The thread's steps while no interrupt arrives.
  unfoldable pub steps : ℕ → System A W D show_task task → Outcome (System A W D show_task task)
  steps zero s = ok s
  steps (suc n) s = run A W D show_task task s.phase s >>= λ t. steps n t

  abbrev pub Settles : System A W D show_task task → Outcome (System A W D show_task task) → Type 0
  Settles t r =
      (u : System A W D show_task task) × (r ≡ ok u)
      × (u.phase ≡ halted)
      × (u.delivered ≡ t.accepted)
