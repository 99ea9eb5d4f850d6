-- ===== src/Keyboard/Wakeups.antt =====
-- No wakeup is lost: while a scancode waits, the task that decodes it is running or queued to run.
pub mod Queues
pub mod Steps
use velora_os.Base.{
  ◌*◌, ℕ, zero, suc, ◌+◌, ◌≤◌, ◌<◌, ◌≡◌, ◌⊎◌, inl, inr, refl, sym, ap, ap₂, ◌∙◌, Bool, true, false,
  List, [], ◌∷◌, ◌++◌, Option, none, some, Outcome, ok, ◌>>=◌, expect, ◌==◌, Bool-cases,
  Option-cases, if◌then◌else◌, arith, length, append-nil, append_assoc, length-append, ltb, ltb→lt,
  subst,
}
use velora_os.Executor.{TaskId}
use velora_os.Keyboard.Loop.{
  Phase, next_task, first_pop, registering, second_pop, unregistering, received, checking, halting,
  halted, resumed,
}

-- The scancode that the thread has in hand.
abbrev pub in_hand : Phase → List ℕ
in_hand (unregistering scancode) = scancode ∷ []
in_hand (received scancode) = scancode ∷ []
in_hand _ = []

-- `sleep_if_idle` alone disables interrupts.
abbrev pub enabled : Phase → Bool
enabled checking = false
enabled halting = false
enabled _ = true

pub regroup : (ws xs ys zs : List ℕ) → ws ++ (xs ++ (ys ++ zs)) ≡ (ws ++ (xs ++ ys)) ++ zs
regroup ws xs ys zs = simp (append_assoc)

pub resumed-in_hand : (p : Phase) → in_hand (resumed p) ≡ in_hand p
resumed-in_hand next_task = refl
resumed-in_hand first_pop = refl
resumed-in_hand registering = refl
resumed-in_hand second_pop = refl
resumed-in_hand (unregistering c) = refl
resumed-in_hand (received c) = refl
resumed-in_hand checking = refl
resumed-in_hand halting = refl
resumed-in_hand halted = refl

pub resumed-enabled : (p : Phase) → enabled (resumed p) ≡ enabled p
resumed-enabled next_task = refl
resumed-enabled first_pop = refl
resumed-enabled registering = refl
resumed-enabled second_pop = refl
resumed-enabled (unregistering c) = refl
resumed-enabled (received c) = refl
resumed-enabled checking = refl
resumed-enabled halting = refl
resumed-enabled halted = refl

-- How many steps the thread needs at most until it halts, if no interrupt arrives: with `n` scancodes
-- waiting and `m` wakeups queued.
abbrev pub steps_left : Phase → ℕ → ℕ → ℕ
steps_left next_task n m = 6 * n + 4 * m + 3
steps_left first_pop n m = 6 * n + 4 * m + 6
steps_left registering n m = 6 * n + 4 * m + 5
steps_left second_pop n m = 6 * n + 4 * m + 4
steps_left (unregistering c) n m = 6 * n + 4 * m + 8
steps_left (received c) n m = 6 * n + 4 * m + 7
steps_left checking n m = if m == 0 then 6 * n + 2 else 6 * n + 4 * m + 4
steps_left halting n m = 1
steps_left halted n m = 0

module _ (task : TaskId) where
  -- The queue holds wakeups of the task only.
  abbrev pub Only : List TaskId → Type 0
  Only [] = Unit
  Only (id ∷ ids) = (id ≡ task) × Only ids

  -- Another wakeup is queued, or the next scancode will cause one.
  abbrev pub Parked : List ℕ → Option TaskId → List TaskId → Type 0
  Parked waiting holder queued = (0 < length queued) ⊎ ((waiting ≡ []) × (holder ≡ some task))

  abbrev pub Attended : Phase → List ℕ → Option TaskId → List TaskId → Type 0
  Attended next_task waiting holder queued = Parked waiting holder queued
  Attended checking waiting holder queued = Parked waiting holder queued
  Attended second_pop waiting holder queued = (0 < length queued) ⊎ (holder ≡ some task)
  Attended halting waiting holder queued = (waiting ≡ []) × (holder ≡ some task)
  Attended halted waiting holder queued = (waiting ≡ []) × (holder ≡ some task)
  Attended _ waiting holder queued = Unit

  pub Only-append : (ids : List TaskId) → Only ids → Only (ids ++ (task ∷ []))
  Only-append [] h = (refl, tt)
  Only-append (id ∷ ids) h = (h.0, Only-append ids h.1)

  pub some_queued :
      (p : Phase) (xs : List ℕ) (h : Option TaskId) (ids : List TaskId)
      → enabled p ≡ true
      → 0 < length ids
      → Attended (resumed p) xs h ids
  some_queued next_task xs h ids on lt = inl lt
  some_queued first_pop xs h ids on lt = tt
  some_queued registering xs h ids on lt = tt
  some_queued second_pop xs h ids on lt = inl lt
  some_queued (unregistering c) xs h ids on lt = tt
  some_queued (received c) xs h ids on lt = tt
  some_queued checking xs h ids on lt = inl lt
  some_queued halting xs h ids on lt = absurd cc
  some_queued halted xs h ids on lt = inl lt

  -- Nothing was held, so a parked task has a wakeup in the queue already.
  pub none_held :
      (p : Phase) (xs ys : List ℕ) (ids : List TaskId)
      → Attended p xs none ids
      → Attended (resumed p) ys none ids
  none_held next_task xs ys ids (inl lt) = inl lt
  none_held next_task xs ys ids (inr h) = absurd cc
  none_held first_pop xs ys ids h = tt
  none_held registering xs ys ids h = tt
  none_held second_pop xs ys ids (inl lt) = inl lt
  none_held second_pop xs ys ids (inr h) = absurd cc
  none_held (unregistering c) xs ys ids h = tt
  none_held (received c) xs ys ids h = tt
  none_held checking xs ys ids (inl lt) = inl lt
  none_held checking xs ys ids (inr h) = absurd cc
  none_held halting xs ys ids h = absurd cc
  none_held halted xs ys ids h = absurd cc

  -- An interrupt that changes nothing, which ends a halt.
  pub as_before :
      (p : Phase) (xs : List ℕ) (h : Option TaskId) (ids : List TaskId)
      → Attended p xs h ids
      → Attended (resumed p) xs h ids
  as_before next_task xs h ids a = a
  as_before first_pop xs h ids a = tt
  as_before registering xs h ids a = tt
  as_before second_pop xs h ids a = a
  as_before (unregistering c) xs h ids a = tt
  as_before (received c) xs h ids a = tt
  as_before checking xs h ids a = a
  as_before halting xs h ids a = a
  as_before halted xs h ids a = inr a

  pub pressed-Attended :
      (p : Phase) (xs ys : List ℕ) (h h' : Option TaskId) (ids ids' : List TaskId)
      → enabled p ≡ true
      → Attended p xs h ids
      → ((0 < length ids') ⊎ ((h ≡ none) × (h' ≡ none) × (ids' ≡ ids)))
        ⊎ ((ys ≡ xs) × (h' ≡ h) × (ids' ≡ ids))
      → Attended (resumed p) ys h' ids'
  pressed-Attended p xs ys h h' ids ids' on a (inl (inl lt)) = some_queued p ys h' ids' on lt
  pressed-Attended p xs ys h h' ids ids' on a (inl (inr (e, e', same))) =
      rw (e', same) (none_held p xs ys ids (subst (λ o. Attended p xs o ids) e a))
  pressed-Attended p xs ys h h' ids ids' on a (inr (e, e', same)) =
      rw (e, e', same) (as_before p xs h ids a)
