-- ===== src/Executor/Tests.antt =====
-- Two tasks that count down.
use velora_os.Base.{
  ℕ, zero, suc, ◌<◌, ◌≡◌, ◌↔◌, refl, Bool, true, false, List, [], ◌∷◌, ◌++◌, Option, none, some, ok,
  arith, ltb, lt→ltb, ◌==◌, length, count, if◌then◌else◌,
}
use velora_os.Executor.{TaskId, ArrayQueue, Polled, Executor, run_ready_tasks}
use velora_os.Executor.Laws.{polls, run_ready_tasks-polls}

abbrev pub Bounded : Type 0
Bounded = ℕ × List ℕ

abbrev pub pop_list : Bounded → Option (ℕ × Bounded)
pop_list (n, []) = none
pop_list (n, x ∷ xs) = some (x, (n, xs))

abbrev pub push_list : ℕ → Bounded → Option Bounded
push_list x q = if ltb (length q.1) q.0 then some (q.0, q.1 ++ (x ∷ [])) else none

pub pushes :
    (x : ℕ) (q : Bounded)
    → length q.1 < q.0
    → (q' : Bounded) × (push_list x q ≡ some q') × (q'.1 ≡ q.1 ++ (x ∷ [])) × (q'.0 ≡ q.0)
pushes x q lt = ((q.0, q.1 ++ (x ∷ [])), rw (lt→ltb _ _ lt) refl, refl, refl)

pub refuses : (x : ℕ) (q : Bounded) → length q.1 ≡ q.0 → push_list x q ≡ none
refuses x q e = ground arith

pub empties : (q : Bounded) → q.1 ≡ [] → pop_list q ≡ none
empties (n, xs) e = rw e refl

pub pops :
    (x : ℕ) (xs : List ℕ) (q : Bounded)
    → q.1 ≡ x ∷ xs
    → (q' : Bounded) × (pop_list q ≡ some (x, q')) × (q'.1 ≡ xs) × (q'.0 ≡ q.0)
pops x xs (n, ys) e = ((n, xs), rw e refl, refl, refl)

abbrev pub null : List ℕ → Bool
null [] = true
null (x ∷ xs) = false

pub null-nil : (q : Bounded) → (null q.1 ≡ true) ↔ (q.1 ≡ [])
null-nil (n, []) = (λ e. refl, λ e. refl)
null-nil (n, x ∷ xs) = (λ e. cc, λ e. cc)

abbrev pub list_queue : ArrayQueue
list_queue = record {
  Queue = Bounded;
  new = λ n. (n, []);
  push = push_list;
  pop = pop_list;
  is_empty = λ q. null q.1;
  capacity = λ q. q.0;
  contents = λ q. q.1;
  new-contents = λ n. (refl, refl);
  push-room = pushes;
  push-full = refuses;
  is_empty-contents = null-nil;
  pop-empty = empties;
  pop-first = pops;
}

-- A future is the number of polls that it still takes.
abbrev count_down : ℕ → Polled ℕ
count_down zero = record { pending = none; woken = [] }
count_down (suc n) = record { pending = some n; woken = [] }

wakes_none : (n : ℕ) → (count_down n).woken ≡ []
wakes_none zero = refl
wakes_none (suc n) = refl

abbrev two_tasks : Executor list_queue ℕ count_down
two_tasks = record {
  tasks = λ id. if id == 0 then some 0 else if id == 1 then some 5 else none;
  task_queue = (128, 0 ∷ 1 ∷ 1 ∷ []);
  waker_cache = λ id. false;
}

run_ready_tasks-polls_example :
    (e' : Executor list_queue ℕ count_down) × (run_ready_tasks list_queue ℕ count_down 4 two_tasks
      ≡ ok e')
    × (list_queue.contents e'.task_queue ≡ [])
    × ((j : TaskId)
        → e'.tasks j ≡ polls list_queue ℕ count_down (count j (0 ∷ 1 ∷ 1 ∷ [])) (two_tasks.tasks j))
run_ready_tasks-polls_example =
    run_ready_tasks-polls list_queue ℕ count_down wakes_none 4 two_tasks (omega arith)
