-- ===== src/Keyboard/Runs.antt =====
-- The executor's thread on concrete queues: an arrow key is pressed after boot.
use velora_os.Base.{
  ℕ, ◌+◌, refl, true, List, [], ◌∷◌, Option, none, some, Outcome, ok, panic, stuck, replicate,
}
use velora_os.Executor.{TaskId}
use velora_os.Executor.Tests.{list_queue}
use velora_os.Keyboard.{raw_key, arrow_up}
use velora_os.Keyboard.Scancodes.{AtomicWaker, Decoder, Keys, wake}
use velora_os.Keyboard.Loop.{next_task, halted, System}

-- A waker that is there or not.
abbrev pub cell : AtomicWaker
cell = record {
  Waker = Option TaskId;
  new = none;
  register = λ id w. some id;
  take = λ w. none;
  wake = λ w. (w, none);
  holds = λ w. w;
  new-holds = refl;
  register-holds = λ id w. refl;
  take-holds = λ w. refl;
  wake-holds = λ w. (refl, refl);
}

-- Every scancode is an arrow key.
abbrev pub arrows : Decoder
arrows = record { Keyboard = ℕ; add_byte = λ c n. (some (raw_key arrow_up), n + 1) }

abbrev pub show : TaskId → List ℕ
show id = []

abbrev pub keys : Keys list_queue cell arrows show
keys = record {
  scancodes = some (100, []);
  waker = none;
  task_queue = (128, 7 ∷ []);
  input = record { bytes = replicate 128 0; head = 0; len = 0 };
  screen = record {
    column_position = 0;
    color = 0;
    buffer = λ r c. record { ascii_character = 0; color = 0 };
  };
}

abbrev boot : System list_queue cell arrows show 7
boot = record {
  phase = next_task;
  interrupts = true;
  keys = keys;
  keyboard = 0;
  accepted = [];
  delivered = [];
}

abbrev value : Outcome (System list_queue cell arrows show 7) → System list_queue cell arrows show 7
value (ok s) = s
value panic = boot
value stuck = boot

-- The key is pressed before the thread's first step.
abbrev typed : System list_queue cell arrows show 7
typed = record boot { keys = record keys { scancodes = some (100, 30 ∷ []) }; accepted = 30 ∷ [] }

abbrev done : System list_queue cell arrows show 7
done = record {
  phase = halted;
  interrupts = true;
  keys = record keys {
    scancodes = some (100, []);
    waker = some 7;
    task_queue = (128, []);
    input = record { bytes = 27 ∷ b'[' ∷ b'A' ∷ replicate 125 0; head = 0; len = 3 };
  };
  keyboard = 1;
  accepted = 30 ∷ [];
  delivered = 30 ∷ [];
}
