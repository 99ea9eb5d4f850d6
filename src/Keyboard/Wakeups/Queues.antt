-- ===== src/Keyboard/Wakeups/Queues.antt =====
-- The queues, the waker and the screen: what the keyboard's interrupt does to them.
use velora_os.Base.{
  ℕ, ◌+◌, ◌≤◌, ◌<◌, ◌≡◌, ◌⊎◌, inl, inr, refl, sym, ap, ◌∙◌, true, false, List, [], ◌∷◌, ◌++◌,
  Option, none, some, ok, Bool-cases, arith, length, append-nil, length-append, ltb, ltb→lt, subst,
}
use velora_os.Executor.{TaskId, ArrayQueue}
use velora_os.Keyboard
use velora_os.Keyboard.Laws.{handle_key-Pushes, echoed}
use velora_os.Keyboard.Scancodes.{
  AtomicWaker, Decoder, Keys, dropped_warning, queue_full_warning, println, wake_task, wake,
  add_scancode, echo, decode,
}
use velora_os.Keyboard.Loop.{Phase, System, pop_scancode, run, taken_in}
use velora_os.Vga
use velora_os.Vga.Laws
use velora_os.Keyboard.Wakeups.{Only, Only-append}

module _ (A : ArrayQueue) (W : AtomicWaker) (D : Decoder) (show_task : TaskId → List ℕ)
    (task : TaskId) where
  pub record KeysOk (k : Keys A W D show_task) (q : A.Queue) : Type 0 where
    pub there : k.scancodes ≡ some q
    pub fits : length (A.contents k.task_queue) ≤ A.capacity k.task_queue
    pub room : 0 < A.capacity k.task_queue
    pub fits_codes : length (A.contents q) ≤ A.capacity q
    pub only : Only task (A.contents k.task_queue)
    pub holder : (W.holds k.waker ≡ none) ⊎ (W.holds k.waker ≡ some task)
    pub input : Keyboard.IsValid k.input
    pub screen : Vga.Laws.IsValid k.screen

  -- A warning changes the screen alone.
  println-ok :
      (text : List ℕ) (k : Keys A W D show_task) (q : A.Queue)
      → KeysOk k q
      → (w : Vga.Writer) × (println A W D show_task text k ≡ ok (record k { screen = w }))
        × KeysOk (record k { screen = w }) q
  unfolding println
  println-ok text k q v =
      let (w, e, valid) = Vga.Laws.write_string-IsValid (text ++ (10 ∷ [])) k.screen v.screen in
      (
        w,
        rw e refl,
        record {
          there = v.there;
          fits = v.fits;
          room = v.room;
          fits_codes = v.fits_codes;
          only = v.only;
          holder = v.holder;
          input = v.input;
          screen = valid;
        },
      )

  -- A wakeup of the task, which finds room, or the queue full of such wakeups.
  wake_task-ok :
      (k : Keys A W D show_task) (q : A.Queue)
      → KeysOk k q
      → (k' : Keys A W D show_task) × (wake_task A W D show_task task k ≡ ok k')
        × KeysOk k' q
        × (0 < length (A.contents k'.task_queue))
        × (W.holds k'.waker ≡ W.holds k.waker)
  unfolding wake_task
  wake_task-ok k q v =
      by_room (Bool-cases (ltb (length (A.contents k.task_queue)) (A.capacity k.task_queue)))
    where
      by_room :
          (ltb (length (A.contents k.task_queue)) (A.capacity k.task_queue) ≡ true)
            ⊎ (ltb (length (A.contents k.task_queue)) (A.capacity k.task_queue) ≡ false)
          → (k' : Keys A W D show_task) × (wake_task A W D show_task task k ≡ ok k')
            × KeysOk k' q
            × (0 < length (A.contents k'.task_queue))
            × (W.holds k'.waker ≡ W.holds k.waker)
      by_room (inl lt) =
          let (tq, pushed, c, cap) = A.push-room task k.task_queue (ltb→lt _ _ lt) in
          let longer : length (A.contents tq) ≡ length (A.contents k.task_queue) + 1 =
            ap length c ∙ length-append (A.contents k.task_queue) (task ∷ []) in
          let room : length (A.contents k.task_queue) < A.capacity k.task_queue = ltb→lt _ _ lt in
          (
            record k { task_queue = tq },
            rw (pushed, wake_task) refl,
            record {
              there = v.there;
              fits = omega (arith, cap, longer, room);
              room = omega (arith, cap, v.room);
              fits_codes = v.fits_codes;
              only = subst (Only task) (sym c) (Only-append task (A.contents k.task_queue) v.only);
              holder = v.holder;
              input = v.input;
              screen = v.screen;
            },
            omega (arith, longer),
            refl,
          )
      by_room (inr full) =
          let (w, printed, v') = println-ok (dropped_warning ++ show_task task) k q v in
          (
            record k { screen = w },
            rw (A.push-full task k.task_queue (ground (arith, v.fits)), wake_task) printed,
            v',
            ground (arith, v.fits, v.room),
            refl,
          )

  -- Any held waker has woken the task, or none was held and the executor's queue is as it was.
  abbrev pub Alerted : Keys A W D show_task → Keys A W D show_task → Type 0
  Alerted k k' =
      (0 < length (A.contents k'.task_queue))
      ⊎ ((W.holds k.waker ≡ none)
          × (W.holds k'.waker ≡ none)
          × (A.contents k'.task_queue ≡ A.contents k.task_queue))

  pub with_waker :
      (k : Keys A W D show_task) (q : A.Queue) (w : W.Waker)
      → KeysOk k q
      → (W.holds w ≡ none) ⊎ (W.holds w ≡ some task)
      → KeysOk (record k { waker = w }) q
  with_waker k q w v h = record {
    there = v.there;
    fits = v.fits;
    room = v.room;
    fits_codes = v.fits_codes;
    only = v.only;
    holder = h;
    input = v.input;
    screen = v.screen;
  }

  wake-ok :
      (k : Keys A W D show_task) (q : A.Queue)
      → KeysOk k q
      → (k' : Keys A W D show_task) × (wake A W D show_task k ≡ ok k') × KeysOk k' q × Alerted k k'
  unfolding wake
  wake-ok k q v = by_holder v.holder
    where
      k1 : Keys A W D show_task
      k1 = record k { waker = (W.wake k.waker).1 }

      gone : W.holds (W.wake k.waker).1 ≡ none
      gone = (W.wake-holds k.waker).1

      v1 : KeysOk k1 q
      v1 = with_waker k q (W.wake k.waker).1 v (inl gone)

      by_holder :
          (W.holds k.waker ≡ none) ⊎ (W.holds k.waker ≡ some task)
          → (k' : Keys A W D show_task) × (wake A W D show_task k ≡ ok k')
            × KeysOk k' q
            × Alerted k k'
      by_holder (inl e) =
          (k1, rw ((W.wake-holds k.waker).0 ∙ e, wake) refl, v1, inr (e, gone, refl))
      by_holder (inr e) =
          let (k', run, v', queued, _) = wake_task-ok k1 q v1 in
          (k', rw ((W.wake-holds k.waker).0 ∙ e, wake) run, v', inl queued)

  -- What an interrupt of the keyboard changes: nothing but the screen, where the queue is full; else
  -- the scancode joins the queue, and the waker is woken.
  unfoldable pub Pressed : ℕ → Keys A W D show_task → A.Queue → Type 0
  Pressed scancode k q =
      (k' : Keys A W D show_task) × (q' : A.Queue) × (add_scancode A W D show_task scancode k
        ≡ ok k')
      × KeysOk k' q'
      × (A.contents q' ≡ A.contents q ++ taken_in A W D show_task task scancode k)
      × (Alerted k k'
          ⊎ ((A.contents q' ≡ A.contents q)
              × (W.holds k'.waker ≡ W.holds k.waker)
              × (A.contents k'.task_queue ≡ A.contents k.task_queue)))

  pub add_scancode-Pressed :
      (scancode : ℕ) (k : Keys A W D show_task) (q : A.Queue) → KeysOk k q → Pressed scancode k q
  unfolding add_scancode Pressed
  add_scancode-Pressed scancode k q v =
      by_room (Bool-cases (ltb (length (A.contents q)) (A.capacity q)))
    where
      taken :
          {q' : A.Queue}
          → A.push scancode q ≡ some q'
          → taken_in A W D show_task task scancode k ≡ scancode ∷ []
      taken pushed = rw (v.there, taken_in, pushed) refl

      not_taken : A.push scancode q ≡ none → taken_in A W D show_task task scancode k ≡ []
      not_taken refused = rw (v.there, taken_in, refused) refl

      refusal :
          A.push scancode q ≡ none
          → add_scancode A W D show_task scancode k ≡ println A W D show_task queue_full_warning k
      refusal refused = simp (v.there, refused, add_scancode)

      by_room :
          (ltb (length (A.contents q)) (A.capacity q) ≡ true)
            ⊎ (ltb (length (A.contents q)) (A.capacity q) ≡ false)
          → Pressed scancode k q
      by_room (inl lt) =
          let (q', pushed, c, cap) = A.push-room scancode q (ltb→lt _ _ lt) in
          let longer : length (A.contents q') ≡ length (A.contents q) + 1 =
            ap length c ∙ length-append (A.contents q) (scancode ∷ []) in
          let space : length (A.contents q) < A.capacity q = ltb→lt _ _ lt in
          let k1 : Keys A W D show_task = record k { scancodes = some q' } in
          let v1 : KeysOk k1 q' = record {
            there = refl;
            fits = v.fits;
            room = v.room;
            fits_codes = omega (arith, cap, longer, space);
            only = v.only;
            holder = v.holder;
            input = v.input;
            screen = v.screen;
          } in
          let (k', run, v', alerted) = wake-ok k1 q' v1 in
          (
            k',
            q',
            rw (v.there, pushed, add_scancode) run,
            v',
            c ∙ ap (λ xs. A.contents q ++ xs) (sym (taken pushed)),
            inl alerted,
          )
      by_room (inr full) =
          let (w, printed, v') = println-ok queue_full_warning k q v in
          let refused = A.push-full scancode q (ground (arith, v.fits_codes)) in
          (
            record k { screen = w },
            q,
            refusal refused ∙ printed,
            v',
            sym (ap (λ xs. A.contents q ++ xs) (not_taken refused) ∙ append-nil (A.contents q)),
            inr (refl, refl, refl),
          )

  -- A pop of the scancode queue.
  pub pop_scancode-pops :
      (found : ℕ → Phase) (missing : Phase) (s : System A W D show_task task) (q : A.Queue)
      → KeysOk s.keys q
      → ((A.contents q ≡ [])
          × (pop_scancode A W D show_task task found missing s ≡ ok (record s { phase = missing })))
        ⊎ ((c : ℕ) × (q' : A.Queue) × (A.contents q ≡ c ∷ A.contents q')
            × (pop_scancode A W D show_task task found missing s
                ≡ ok (record s { phase = found c; keys = record s.keys { scancodes = some q' } }))
            × KeysOk (record s.keys { scancodes = some q' }) q')
  unfolding pop_scancode
  pop_scancode-pops found missing s q v = by_contents (A.contents q) refl
    where
      by_contents :
          (xs : List ℕ)
          → A.contents q ≡ xs
          → ((A.contents q ≡ [])
              × (pop_scancode A W D show_task task found missing s
                  ≡ ok (record s { phase = missing })))
            ⊎ ((c : ℕ) × (q' : A.Queue) × (A.contents q ≡ c ∷ A.contents q')
                × (pop_scancode A W D show_task task found missing s
                    ≡ ok (record s {
                      phase = found c;
                      keys = record s.keys { scancodes = some q' };
                    }))
                × KeysOk (record s.keys { scancodes = some q' }) q')
      by_contents [] e = inl (e, simp (v.there, A.pop-empty q e, pop_scancode))
      by_contents (c ∷ cs) e =
          let (q', popped, rest, cap) = A.pop-first c cs q e in
          inr (
            c,
            q',
            e ∙ ap (λ xs. c ∷ xs) (sym rest),
            simp (v.there, popped, pop_scancode),
            record {
              there = refl;
              fits = v.fits;
              room = v.room;
              fits_codes = omega (arith, v.fits_codes, ap length e, ap length rest, cap);
              only = v.only;
              holder = v.holder;
              input = v.input;
              screen = v.screen;
            },
          )

  echo-ok :
      (o : Option ℕ) (k : Keys A W D show_task) (q : A.Queue)
      → KeysOk k q
      → (w : Vga.Writer) × (echo A W D show_task o k ≡ ok (record k { screen = w }))
        × KeysOk (record k { screen = w }) q
  unfolding echo
  echo-ok none k q v = (k.screen, refl, v)
  echo-ok (some c) k q v =
      let (w, e, valid) = Vga.Laws.write_string-IsValid (c ∷ []) k.screen v.screen in
      (
        w,
        rw e refl,
        record {
          there = v.there;
          fits = v.fits;
          room = v.room;
          fits_codes = v.fits_codes;
          only = v.only;
          holder = v.holder;
          input = v.input;
          screen = valid;
        },
      )

  -- Handling a scancode never panics, and changes the input queue and the screen alone.
  pub decode-ok :
      (c : ℕ) (keyboard : D.Keyboard) (k : Keys A W D show_task) (q : A.Queue)
      → KeysOk k q
      → (keyboard' : D.Keyboard) × (input : Keyboard.InputQueue) × (w : Vga.Writer) × (decode A W D
            show_task c keyboard k
          ≡ ok (keyboard', record k { input = input; screen = w }))
        × KeysOk (record k { input = input; screen = w }) q
  unfolding decode
  decode-ok c keyboard k q v = by_key (D.add_byte c keyboard).0 refl
    where
      by_key :
          (key : Option Keyboard.DecodedKey)
          → (D.add_byte c keyboard).0 ≡ key
          → (keyboard' : D.Keyboard) × (input : Keyboard.InputQueue) × (w : Vga.Writer) × (decode A
                W D show_task c keyboard k
              ≡ ok (keyboard', record k { input = input; screen = w }))
            × KeysOk (record k { input = input; screen = w }) q
      by_key none e = ((D.add_byte c keyboard).1, k.input, k.screen, rw (e, decode) refl, v)
      by_key (some pressed) e =
          let (input, handled, pushes) = handle_key-Pushes pressed k.input v.input in
          let v1 : KeysOk (record k { input = input }) q = record {
            there = v.there;
            fits = v.fits;
            room = v.room;
            fits_codes = v.fits_codes;
            only = v.only;
            holder = v.holder;
            input = pushes.0;
            screen = v.screen;
          } in
          let (w, printed, v2) = echo-ok (echoed pressed) (record k { input = input }) q v1 in
          ((D.add_byte c keyboard).1, input, w, rw (e, handled, printed, decode) refl, v2)
