-- ===== src/Keyboard/Wakeups/Steps.antt =====
-- Every step of the executor's thread, and every interrupt, keeps the invariant.
use velora_os.Base.{
  ℕ, ◌-◌, ◌≤◌, ◌<◌, ◌≡◌, ◌⊎◌, inl, inr, refl, sym, ap, ap₂, ◌∙◌, true, false, List, [], ◌∷◌, ◌++◌,
  Option, some, ok, ◌==◌, ==_iff, Bool-cases, arith, length, append_assoc, subst,
}
use velora_os.Executor.{TaskId, ArrayQueue}
use velora_os.Keyboard.Scancodes.{AtomicWaker, Decoder}
use velora_os.Keyboard.Loop.{
  Phase, next_task, first_pop, registering, second_pop, unregistering, received, checking, halting,
  halted, System, take_task, sleep_if_idle, run, resumed, taken_in, press, interrupt, Step, thread,
  key, tick, Reach, here, next,
}
use velora_os.Keyboard.Wakeups.{
  steps_left, Only, Attended, in_hand, enabled, as_before, resumed-in_hand, resumed-enabled,
  pressed-Attended, regroup,
}
use velora_os.Keyboard.Wakeups.Queues.{
  KeysOk, Pressed, with_waker, add_scancode-Pressed, pop_scancode-pops, decode-ok,
}

module _ (A : ArrayQueue) (W : AtomicWaker) (D : Decoder) (show_task : TaskId → List ℕ)
    (task : TaskId) where
  -- The thread and the interrupts leave nobody waiting for a wakeup that will not come.
  pub record At (p : Phase) (s : System A W D show_task task) : Type 0 where
    pub waiting : A.Queue
    pub keys_ok : KeysOk A W D show_task task s.keys waiting
    pub attended :
        Attended task p (A.contents waiting) (W.holds s.keys.waker) (A.contents s.keys.task_queue)
    pub flag : s.interrupts ≡ enabled p
    pub order : s.delivered ++ (in_hand p ++ A.contents waiting) ≡ s.accepted

  abbrev pub Inv : System A W D show_task task → Type 0
  Inv s = At s.phase s

  pub press-Inv :
      (scancode : ℕ) (s : System A W D show_task task)
      → s.interrupts ≡ true
      → Inv s
      → (s' : System A W D show_task task) × (press A W D show_task task scancode s ≡ ok s')
        × Inv s'
  unfolding press Pressed
  press-Inv scancode s on v =
      let (k', q', run, v', c, changed) =
        add_scancode-Pressed A W D show_task task scancode s.keys v.waiting v.keys_ok in
      (
        record s {
          phase = resumed s.phase;
          keys = k';
          accepted = s.accepted ++ taken_in A W D show_task task scancode s.keys;
        },
        rw (run, press) refl,
        record {
          waiting = q';
          keys_ok = v';
          attended =
              pressed-Attended task s.phase (A.contents v.waiting) (A.contents q')
                (W.holds s.keys.waker) (W.holds k'.waker) (A.contents s.keys.task_queue)
                (A.contents k'.task_queue) (sym v.flag ∙ on) v.attended changed;
          flag = v.flag ∙ sym (resumed-enabled s.phase);
          order =
              ap₂ (λ xs ys. s.delivered ++ (xs ++ ys)) (resumed-in_hand s.phase) c
              ∙ regroup s.delivered (in_hand s.phase) (A.contents v.waiting)
                  (taken_in A W D show_task task scancode s.keys)
              ∙ ap (λ xs. xs ++ taken_in A W D show_task task scancode s.keys) v.order;
        },
      )

  pub interrupt-Inv :
      (s : System A W D show_task task) → Inv s → Inv (interrupt A W D show_task task s)
  unfolding interrupt
  interrupt-Inv s v = record {
    waiting = v.waiting;
    keys_ok = v.keys_ok;
    attended =
        as_before task s.phase (A.contents v.waiting) (W.holds s.keys.waker)
          (A.contents s.keys.task_queue) v.attended;
    flag = v.flag ∙ sym (resumed-enabled s.phase);
    order =
        ap (λ xs. s.delivered ++ (xs ++ A.contents v.waiting)) (resumed-in_hand s.phase) ∙ v.order;
  }

  abbrev pub cost : {p : Phase} {s : System A W D show_task task} → At p s → ℕ
  cost {p} {s} v =
      steps_left p (length (A.contents v.waiting)) (length (A.contents s.keys.task_queue))

  -- One step of the thread does not panic, keeps the invariant, and is one of the steps left.
  unfoldable pub Continues : (p : Phase) (s : System A W D show_task task) → At p s → Type 0
  Continues p s v =
      (t : System A W D show_task task) × (run A W D show_task task p s ≡ ok t)
      × (v' : Inv t) × (cost v' ≤ cost v - 1)
      × (t.accepted ≡ s.accepted)

  take_task-Inv : (s : System A W D show_task task) (v : At next_task s) → Continues next_task s v
  unfolding Continues run take_task
  take_task-Inv s v = by_queue (A.contents s.keys.task_queue) refl
    where
      by_queue : (ids : List TaskId) → A.contents s.keys.task_queue ≡ ids → Continues next_task s v
      by_queue [] e = (
        record s { phase = checking; interrupts = false },
        simp (A.pop-empty s.keys.task_queue e, take_task),
        record {
          waiting = v.waiting;
          keys_ok = v.keys_ok;
          attended = v.attended;
          flag = refl;
          order = v.order;
        },
        ground (arith, ap length e),
        refl,
      )
      by_queue (id ∷ ids) e =
          let (q, popped, rest, cap) = A.pop-first id ids s.keys.task_queue e in
          let ours : Only task (id ∷ ids) = subst (Only task) e v.keys_ok.only in
          let same : (id == task) ≡ true = (==_iff id task).1 ours.0 in
          (
            record s { phase = first_pop; keys = record s.keys { task_queue = q } },
            simp (popped, same, take_task),
            record {
              waiting = v.waiting;
              keys_ok = record {
                there = v.keys_ok.there;
                fits = omega (arith, v.keys_ok.fits, ap length e, ap length rest, cap);
                room = omega (arith, v.keys_ok.room, cap);
                fits_codes = v.keys_ok.fits_codes;
                only = subst (Only task) (sym rest) ours.1;
                holder = v.keys_ok.holder;
                input = v.keys_ok.input;
                screen = v.keys_ok.screen;
              };
              attended = tt;
              flag = v.flag;
              order = v.order;
            },
            omega (arith, ap length e, ap length rest),
            refl,
          )

  first_pop-Inv : (s : System A W D show_task task) (v : At first_pop s) → Continues first_pop s v
  unfolding Continues run
  first_pop-Inv s v =
      elim (pop_scancode-pops A W D show_task task received registering s v.waiting v.keys_ok) [
        | inl (e, ran) ↦ (
          record s { phase = registering },
          ran,
          record {
            waiting = v.waiting;
            keys_ok = v.keys_ok;
            attended = tt;
            flag = v.flag;
            order = v.order;
          },
          omega (arith, ap length e),
          refl,
        )
        | inr (c, q, e, ran, v') ↦ (
          record s { phase = received c; keys = record s.keys { scancodes = some q } },
          ran,
          record {
            waiting = q;
            keys_ok = v';
            attended = tt;
            flag = v.flag;
            order = ap (λ xs. s.delivered ++ xs) (sym e) ∙ v.order;
          },
          omega (arith, ap length e),
          refl,
        )
      ]

  registering-Inv :
      (s : System A W D show_task task) (v : At registering s) → Continues registering s v
  unfolding Continues run
  registering-Inv s v = (
    record s { phase = second_pop; keys = record s.keys { waker = W.register task s.keys.waker } },
    refl,
    record {
      waiting = v.waiting;
      keys_ok =
          with_waker A W D show_task task s.keys v.waiting (W.register task s.keys.waker) v.keys_ok
            (inr (W.register-holds task s.keys.waker));
      attended = inr (W.register-holds task s.keys.waker);
      flag = v.flag;
      order = v.order;
    },
    omega arith,
    refl,
  )

  second_pop-Inv :
      (s : System A W D show_task task) (v : At second_pop s) → Continues second_pop s v
  unfolding Continues run
  second_pop-Inv s v =
      elim (pop_scancode-pops A W D show_task task unregistering next_task s v.waiting v.keys_ok) [
        | inl (e, ran) ↦ (
          record s { phase = next_task },
          ran,
          record {
            waiting = v.waiting;
            keys_ok = v.keys_ok;
            attended =
                parked (A.contents v.waiting) (W.holds s.keys.waker) (A.contents s.keys.task_queue)
                  e v.attended;
            flag = v.flag;
            order = v.order;
          },
          omega (arith, ap length e),
          refl,
        )
        | inr (c, q, e, ran, v') ↦ (
          record s { phase = unregistering c; keys = record s.keys { scancodes = some q } },
          ran,
          record {
            waiting = q;
            keys_ok = v';
            attended = tt;
            flag = v.flag;
            order = ap (λ xs. s.delivered ++ xs) (sym e) ∙ v.order;
          },
          omega (arith, ap length e),
          refl,
        )
      ]
    where
      parked :
          (xs : List ℕ) (h : Option TaskId) (ids : List TaskId)
          → xs ≡ []
          → (0 < length ids) ⊎ (h ≡ some task)
          → Attended task next_task xs h ids
      parked xs h ids e (inl lt) = inl lt
      parked xs h ids e (inr i) = inr (e, i)

  unregistering-Inv :
      (c : ℕ) (s : System A W D show_task task) (v : At (unregistering c) s)
      → Continues (unregistering c) s v
  unfolding Continues run
  unregistering-Inv c s v = (
    record s { phase = received c; keys = record s.keys { waker = W.take s.keys.waker } },
    refl,
    record {
      waiting = v.waiting;
      keys_ok =
          with_waker A W D show_task task s.keys v.waiting (W.take s.keys.waker) v.keys_ok
            (inl (W.take-holds s.keys.waker));
      attended = tt;
      flag = v.flag;
      order = v.order;
    },
    omega arith,
    refl,
  )

  received-Inv :
      (c : ℕ) (s : System A W D show_task task) (v : At (received c) s) → Continues (received c) s v
  unfolding Continues run
  received-Inv c s v =
      let (keyboard, input, w, ran, v') =
        decode-ok A W D show_task task c s.keyboard s.keys v.waiting v.keys_ok in
      (
        record s {
          phase = first_pop;
          keys = record s.keys { input = input; screen = w };
          keyboard = keyboard;
          delivered = s.delivered ++ (c ∷ []);
        },
        simp (ran, run),
        record {
          waiting = v.waiting;
          keys_ok = v';
          attended = tt;
          flag = v.flag;
          order = append_assoc s.delivered (c ∷ []) (A.contents v.waiting) ∙ v.order;
        },
        omega arith,
        refl,
      )

  checking-Inv : (s : System A W D show_task task) (v : At checking s) → Continues checking s v
  unfolding Continues run sleep_if_idle
  checking-Inv s v = elim (Bool-cases (A.is_empty s.keys.task_queue)) [
    | inl e ↦ (
      record s { phase = halting },
      simp (e, run, sleep_if_idle),
      record {
        waiting = v.waiting;
        keys_ok = v.keys_ok;
        attended =
            idle (A.contents v.waiting) (W.holds s.keys.waker) (A.contents s.keys.task_queue)
              ((A.is_empty-contents s.keys.task_queue).0 e) v.attended;
        flag = v.flag;
        order = v.order;
      },
      ground (arith, ap length ((A.is_empty-contents s.keys.task_queue).0 e)),
      refl,
    )
    | inr e ↦ (
      record s { phase = next_task; interrupts = true },
      simp (e, run, sleep_if_idle),
      record {
        waiting = v.waiting;
        keys_ok = v.keys_ok;
        attended = v.attended;
        flag = refl;
        order = v.order;
      },
      ground (arith, busy e (A.contents s.keys.task_queue) refl),
      refl,
    )
  ]
    where
      busy :
          A.is_empty s.keys.task_queue ≡ false
          → (ids : List TaskId) → A.contents s.keys.task_queue ≡ ids
          → 0 < length (A.contents s.keys.task_queue)
      busy e [] e' =
          let empty : A.is_empty s.keys.task_queue ≡ true =
            (A.is_empty-contents s.keys.task_queue).1 e' in
          absurd cc
      busy e (id ∷ ids) e' = omega (arith, ap length e')

      idle :
          (xs : List ℕ) (h : Option TaskId) (ids : List TaskId)
          → ids ≡ []
          → Attended task checking xs h ids
          → Attended task halting xs h ids
      idle xs h ids e (inl lt) = absurd (omega (arith, ap length e))
      idle xs h ids e (inr i) = i

  stays :
      (p : Phase) (s : System A W D show_task task) (v : At p s)
      → s.phase ≡ p
      → (v' : Inv s) × (cost v' ≤ cost v)
  stays p s v e =
      subst (λ q. (w : At q s) → (v' : Inv s) × (cost v' ≤ cost w)) e (λ w. (w, omega arith)) v

  -- The thread never panics, and keeps the invariant.
  pub run-Inv :
      (p : Phase) (s : System A W D show_task task) (v : At p s) → s.phase ≡ p → Continues p s v
  unfolding Continues run
  run-Inv next_task s v e = take_task-Inv s v
  run-Inv first_pop s v e = first_pop-Inv s v
  run-Inv registering s v e = registering-Inv s v
  run-Inv second_pop s v e = second_pop-Inv s v
  run-Inv (unregistering c) s v e = unregistering-Inv c s v
  run-Inv (received c) s v e = received-Inv c s v
  run-Inv checking s v e = checking-Inv s v
  run-Inv halting s v e = (
    record s { phase = halted; interrupts = true },
    refl,
    record {
      waiting = v.waiting;
      keys_ok = v.keys_ok;
      attended = v.attended;
      flag = refl;
      order = v.order;
    },
    omega arith,
    refl,
  )
  run-Inv halted s v e = let (v', le) = stays halted s v e in (s, refl, v', omega (arith, le), refl)

  Step-Inv : {s t : System A W D show_task task} → Inv s → Step A W D show_task task s t → Inv t
  unfolding Continues
  Step-Inv {s = s} {t = t} v (thread e) =
      let (t', ran, v', _, _) = run-Inv s.phase s v refl in
      let same : t' ≡ t = cc in subst Inv same v'
  Step-Inv {s = s} {t = t} v (key c on e) =
      let (t', ran, v') = press-Inv c s on v in let same : t' ≡ t = cc in subst Inv same v'
  Step-Inv {s = s} v (tick on e) = subst Inv e (interrupt-Inv s v)

  pub Reach-Inv :
      {s t : System A W D show_task task} → Inv s → Reach A W D show_task task s t → Inv t
  Reach-Inv v here = v
  Reach-Inv v (next r st) = Step-Inv (Reach-Inv v r) st
