-- ===== src/Keyboard/Loop.antt =====
-- The executor's thread with its one task, `print_keypresses`, in single steps between which interrupts
-- arrive: run_ready_tasks and sleep_if_idle of task/executor.rs, poll_next of task/keyboard.rs.
use velora_os.Base.{
  ℕ, ◌≡◌, Bool, true, false, List, [], ◌∷◌, ◌++◌, none, some, Outcome, ok, ◌>>=◌, expect, ◌==◌,
  if◌then◌else◌,
}
use velora_os.Executor.{TaskId, ArrayQueue}
use velora_os.Keyboard.Scancodes.{AtomicWaker, Decoder, Keys, add_scancode, decode}

-- Where the thread stands: about to take a task from the queue; in `poll_next`, about to pop for the
-- first time, to register, to pop again, to give up the registration with a scancode in hand; in the
-- loop of `print_keypresses` with a scancode; in `sleep_if_idle`, with interrupts disabled, before its
-- test, and before `enable_and_hlt`; halted.
pub data Phase : Type 0 where
  next_task first_pop registering second_pop : Phase
  unregistering received : ℕ → Phase
  checking halting halted : Phase

-- An interrupt ends the halt.
abbrev pub resumed : Phase → Phase
resumed halted = next_task
resumed phase = phase

module _ (A : ArrayQueue) (W : AtomicWaker) (D : Decoder) (show_task : TaskId → List ℕ)
    (task : TaskId) where
  -- `accepted` and `delivered` record the scancodes that found room in the queue, and those that the
  -- task has handled.
  pub record System : Type 0 where
    pub phase : Phase
    pub interrupts : Bool
    pub keys : Keys A W D show_task
    pub keyboard : D.Keyboard
    pub accepted : List ℕ
    pub delivered : List ℕ

  abbrev at : Phase → System → System
  at phase s = record s { phase = phase }

  -- `while let Some(task_id) = task_queue.pop()`; a task that is not there is passed over. Where the
  -- queue is empty, `sleep_if_idle` begins.
  unfoldable pub take_task : System → System
  take_task s = elim (A.pop s.keys.task_queue) [
    | none ↦ record s { phase = checking; interrupts = false }
    | some (id, q) ↦ record s {
      phase = (if id == task then first_pop else next_task);
      keys = record s.keys { task_queue = q };
    }
  ]

  -- A pop of the scancode queue in `poll_next`, and where it goes on.
  unfoldable pub pop_scancode : (ℕ → Phase) → Phase → System → Outcome System
  pop_scancode found missing s = do
    queue ← expect s.keys.scancodes
    elim (A.pop queue) [
      | none ↦ ok (at missing s)
      | some (scancode, q) ↦
          ok (record s { phase = found scancode; keys = record s.keys { scancodes = some q } })
    ]

  -- The test of `sleep_if_idle`, with interrupts disabled.
  unfoldable pub sleep_if_idle : System → System
  sleep_if_idle s =
      if A.is_empty s.keys.task_queue
      then at halting s
      else record s { phase = next_task; interrupts = true }

  -- One step of the thread. A poll that is pending goes back to the executor's loop.
  unfoldable pub run : Phase → System → Outcome System
  unfolding take_task pop_scancode decode sleep_if_idle
  run next_task s = ok (take_task s)
  run first_pop s = pop_scancode received registering s
  run registering s = ok (record s {
    phase = second_pop;
    keys = record s.keys { waker = W.register task s.keys.waker };
  })
  run second_pop s = pop_scancode unregistering next_task s
  run (unregistering scancode) s =
      ok (record s {
        phase = received scancode;
        keys = record s.keys { waker = W.take s.keys.waker };
      })
  run (received scancode) s = do
    (keyboard, keys) ← decode A W D show_task scancode s.keyboard s.keys
    ok (record s {
      phase = first_pop;
      keys = keys;
      keyboard = keyboard;
      delivered = s.delivered ++ (scancode ∷ []);
    })
  run checking s = ok (sleep_if_idle s)
  run halting s = ok (record s { phase = halted; interrupts = true })
  run halted s = ok s

  -- The scancode, where it finds room.
  abbrev pub taken_in : ℕ → Keys A W D show_task → List ℕ
  taken_in scancode k = elim k.scancodes [
    | none ↦ []
    | some q ↦ elim (A.push scancode q) [ none ↦ [] | some q' ↦ scancode ∷ [] ]
  ]

  -- The keyboard's interrupt.
  unfoldable pub press : ℕ → System → Outcome System
  unfolding add_scancode
  press scancode s = do
    keys ← add_scancode A W D show_task scancode s.keys
    ok (record s {
      phase = resumed s.phase;
      keys = keys;
      accepted = s.accepted ++ taken_in scancode s.keys;
    })

  -- Another interrupt.
  unfoldable pub interrupt : System → System
  interrupt s = record s { phase = resumed s.phase }

  -- Interrupts arrive between any two steps, except while they are disabled.
  pub data Step (s : System) : System → Type 0 where
    thread : {t : System} → run s.phase s ≡ ok t → Step s t
    key : {t : System} (scancode : ℕ) → s.interrupts ≡ true → press scancode s ≡ ok t → Step s t
    tick : {t : System} → s.interrupts ≡ true → interrupt s ≡ t → Step s t

  pub data Reach (s : System) : System → Type 0 where
    here : Reach s s
    next : {t u : System} → Reach s t → Step t u → Reach s u
