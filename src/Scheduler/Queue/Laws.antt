-- ===== src/Scheduler/Queue/Laws.antt =====
-- The ready queue is a FIFO of at most 16 ids.
use velora_os.Base.{
  ℕ, zero, suc, ◌+◌, ◌-◌, ◌%◌, ◌<◌, ◌≡◌, ◌⊎◌, inl, inr, refl, sym, ap, ◌∙◌, [], ◌∷◌, ◌++◌, none,
  some, ok, panic, arith, length, set, length-set, get_or, get_elem?-get_or, length-replicate,
}
use velora_os.Base.Ring.{entries, entries-push, entries-mod, length-entries}
use velora_os.Scheduler.Queue.{
  ReadyQueue, new, push_back, pop_front, contents, IsValid, max_threads,
}

pub length-contents : (q : ReadyQueue) → length (contents q) ≡ q.len
length-contents q = length-entries 0 max_threads q.ids q.head q.len

-- A fresh queue is valid and empty.
pub new-IsValid : IsValid new × (contents new ≡ [])
unfolding new
new-IsValid = (omega (arith, length-replicate {A = ℕ} 16 0), refl)

abbrev pushed : ReadyQueue → ℕ → ReadyQueue
pushed q id = record q { ids = set q.ids ((q.head + q.len) % 16) id; len = q.len + 1 }

pushed-contents :
    (q : ReadyQueue) (id : ℕ)
    → IsValid q
    → q.len < 16
    → contents (pushed q id) ≡ contents q ++ (id ∷ [])
pushed-contents q id v h =
    ap (entries 0 16 (set q.ids ((q.head + q.len) % 16) id) q.head) {y = suc q.len} (omega arith)
    ∙ entries-push 0 16 q.ids q.head q.len id (omega arith) h

-- With room left, `push_back` succeeds, keeps the queue valid and appends the id.
pub push_back-ok :
    (q : ReadyQueue) (id : ℕ)
    → IsValid q
    → q.len < max_threads
    → (r : ReadyQueue) × (push_back q id ≡ ok r)
      × IsValid r
      × (contents r ≡ contents q ++ (id ∷ []))
unfolding push_back
push_back-ok q id v h = (
  pushed q id,
  ground arith,
  ground (arith, length-set q.ids ((q.head + q.len) % 16) id),
  pushed-contents q id v h,
)

-- A full queue panics.
pub push_back-full :
    (q : ReadyQueue) (id : ℕ) → IsValid q → q.len ≡ max_threads → push_back q id ≡ panic
unfolding push_back
push_back-full q id v e = ground arith

abbrev popped : ReadyQueue → ReadyQueue
popped q = record q { head = (q.head + 1) % 16; len = q.len - 1 }

popped-contents :
    (q : ReadyQueue) (n : ℕ)
    → q.head < 16
    → q.len ≡ suc n
    → contents q ≡ get_or q.ids q.head 0 ∷ contents (popped q)
popped-contents q n h e =
    ap (entries 0 16 q.ids q.head) e
    ∙ ap (λ k. get_or q.ids k 0 ∷ entries 0 16 q.ids (q.head + 1) n) (omega arith)
    ∙ ap (λ es. get_or q.ids q.head 0 ∷ es) (sym (entries-mod 0 16 q.ids (q.head + 1) n))
    ∙ ap (λ k. get_or q.ids q.head 0 ∷ entries 0 16 q.ids ((q.head + 1) % 16) k) (omega arith)

-- What `pop_front` may return.
abbrev pub Pops : ReadyQueue → Type 0
Pops q =
    ((contents q ≡ []) × (pop_front q ≡ ok (none, q)))
    ⊎ ((id : ℕ) × (r : ReadyQueue) × (pop_front q ≡ ok (some id, r))
        × IsValid r
        × (contents q ≡ id ∷ contents r))

pop_cases : (q : ReadyQueue) (n : ℕ) → q.len ≡ n → IsValid q → Pops q
unfolding pop_front
pop_cases q zero e v = inl (ap (entries 0 16 q.ids q.head) e, ground arith)
pop_cases q (suc n) e v = inr (
  get_or q.ids q.head 0,
  popped q,
  ground (arith, get_elem?-get_or q.ids q.head 0),
  omega arith,
  popped-contents q n v.head_in e,
)

-- `pop_front` never panics on a valid queue: it takes the oldest id, and leaves the rest.
pub pop_front-Pops : (q : ReadyQueue) → IsValid q → Pops q
pop_front-Pops q v = pop_cases q q.len refl v
