-- ===== src/Keyboard/Scancodes.antt =====
-- task/keyboard.rs: the queue of raw scancodes, which the keyboard's interrupt fills, and the task that
-- decodes them; with the waker of task/executor.rs that the interrupt wakes.
use velora_os.Base.{
  ℕ, ◌≡◌, Bool, true, false, List, [], ◌∷◌, ◌++◌, Option, none, some, Outcome, ok, ◌>>=◌, ◌>>◌,
  assert,
}
use velora_os.Executor.{TaskId, ArrayQueue}
use velora_os.Keyboard.{InputQueue, DecodedKey, handle_key}
use velora_os.Vga.{Writer, write_string}
use Prim.Native.Char.{code}
use Prim.Native.String.{String}

-- The code points of a text.
abbrev codes : String → List ℕ
codes String.[] = []
codes (String.◌∷◌ c s) = code c ∷ codes s

abbrev pub queue_full_warning : List ℕ
queue_full_warning = codes "WARNING: scancode queue full; dropping keyboard input"

abbrev pub uninitialized_warning : List ℕ
uninitialized_warning = codes "WARNING: scancode queue uninitialized"

abbrev pub dropped_warning : List ℕ
dropped_warning = codes "WARNING: executor ready queue full; dropping a wakeup for task "

-- What is used of futures_util's `AtomicWaker`, as its documentation gives it: it holds the waker that
-- was registered last, and `take` and `wake` remove it. A waker is the task that it wakes.
pub record AtomicWaker : Type 1 where
  pub Waker : Type 0
  pub new : Waker
  pub register : TaskId → Waker → Waker
  pub take : Waker → Waker
  pub wake : Waker → Option TaskId × Waker
  pub holds : Waker → Option TaskId
  pub new-holds : holds new ≡ none
  pub register-holds : (id : TaskId) (w : Waker) → holds (register id w) ≡ some id
  pub take-holds : (w : Waker) → holds (take w) ≡ none
  pub wake-holds : (w : Waker) → ((wake w).0 ≡ holds w) × (holds (wake w).1 ≡ none)

-- The pc_keyboard crate's decoder: a scancode may complete a key.
pub record Decoder : Type 1 where
  pub Keyboard : Type 0
  pub add_byte : ℕ → Keyboard → Option DecodedKey × Keyboard

-- The capacity that `init_queue` asks for.
abbrev pub scancode_queue_capacity : ℕ
scancode_queue_capacity = 100

module _ (A : ArrayQueue) (W : AtomicWaker) (D : Decoder) (show_task : TaskId → List ℕ) where
  -- SCANCODE_QUEUE, WAKER, the executor's `task_queue`, the input queue of `sys_read`, and the screen.
  pub record Keys : Type 0 where
    pub scancodes : Option A.Queue
    pub waker : W.Waker
    pub task_queue : A.Queue
    pub input : InputQueue
    pub screen : Writer

  -- `println!`
  unfoldable pub println : List ℕ → Keys → Outcome Keys
  println text k = do
    screen ← write_string (text ++ (10 ∷ [])) k.screen
    ok (record k { screen = screen })

  -- `wake_task`
  unfoldable pub wake_task : TaskId → Keys → Outcome Keys
  unfolding println
  wake_task id k = elim (A.push id k.task_queue) [
    | some q ↦ ok (record k { task_queue = q })
    | none ↦ println (dropped_warning ++ show_task id) k
  ]

  -- `WAKER.wake()`
  unfoldable pub wake : Keys → Outcome Keys
  unfolding wake_task
  wake k =
      let (woken, w) = W.wake k.waker in
      elim woken [
        | none ↦ ok (record k { waker = w })
        | some id ↦ wake_task id (record k { waker = w })
      ]

  unfoldable pub init_queue : Keys → Outcome Keys
  init_queue k = do
    assert (vacant k.scancodes)
    ok (record k { scancodes = some (A.new scancode_queue_capacity) })
    where
      vacant : Option A.Queue → Bool
      vacant none = true
      vacant (some q) = false

  unfoldable pub add_scancode : ℕ → Keys → Outcome Keys
  unfolding println wake
  add_scancode scancode k = elim k.scancodes [
    | none ↦ println uninitialized_warning k
    | some q ↦ elim (A.push scancode q) [
      | none ↦ println queue_full_warning k
      | some q' ↦ wake (record k { scancodes = some q' })
    ]
  ]

  -- `print!` of a character, where there is one.
  unfoldable pub echo : Option ℕ → Keys → Outcome Keys
  echo none k = ok k
  echo (some character) k = do
    screen ← write_string (character ∷ []) k.screen
    ok (record k { screen = screen })

  -- The body of the loop of `print_keypresses`, with the decoder's state.
  unfoldable pub decode : ℕ → D.Keyboard → Keys → Outcome (D.Keyboard × Keys)
  unfolding echo handle_key
  decode scancode keyboard k =
      let (key, keyboard') = D.add_byte scancode keyboard in
      elim key [
        | none ↦ ok (keyboard', k)
        | some pressed ↦ (do
          (character, input) ← handle_key pressed k.input
          k' ← echo character (record k { input = input })
          ok (keyboard', k'))
      ]
