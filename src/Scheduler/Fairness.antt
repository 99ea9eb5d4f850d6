-- ===== src/Scheduler/Fairness.antt =====
-- Fairness of `schedule`: the round robin reaches every waiting thread.
use velora_os.Base.{
  ℕ, zero, suc, ◌≡◌, ◌<◌, ap, ◌∙◌, List, [], ◌∷◌, ◌++◌, Option, none, some, Outcome, ok, ◌>>=◌,
  arith, length, length-append, append_assoc,
}
use velora_os.Memory.Paging.{Paging}
use velora_os.Scheduler.Queue.{contents}
use velora_os.Scheduler.Queue.Laws.{length-contents}
use velora_os.Scheduler.State.{SchedulerState}
use velora_os.Scheduler.Core.{Switch}
use velora_os.Scheduler.Invariant.{WellFormed, WellFormed-Sound, waiting_room}
use velora_os.Scheduler.System.{Kernel, schedule}
use velora_os.Scheduler.System.Laws.{Decided, stays, switches, schedule-Decided}

module _ (P : Paging) (offset : ℕ) where
  -- That many passes of `schedule` one after the other, as the timer makes them; `pointers` are the stack
  -- pointers that they save.
  abbrev pub turns : ℕ → (ℕ → ℕ) → Kernel → Outcome Kernel
  turns zero pointers k = ok k
  turns (suc n) pointers k =
      schedule P offset (pointers 0) k >>= λ r. turns n (λ i. pointers (suc i)) r.1

  -- The state is installed, well-formed, and without a pending cleanup.
  abbrev pub Ready : Kernel → SchedulerState → Type 0
  Ready k s = (k.scheduler ≡ some s) × WellFormed s × (s.zombie ≡ none)

  -- One pass from a queue that is not empty.
  abbrev Turned : (ℕ → ℕ) → Kernel → ℕ → ℕ → List ℕ → Type 0
  Turned pointers k current next rest =
      (k' : Kernel) × (s' : SchedulerState) × ((n : ℕ)
        → turns (suc n) pointers k ≡ turns n (λ i. pointers (suc i)) k')
      × Ready k' s'
      × (s'.current ≡ next)
      × (contents s'.ready_queue ≡ rest ++ (current ∷ []))

  turn-Turned :
      (pointers : ℕ → ℕ) (k : Kernel) {s : SchedulerState} (next : ℕ) (rest : List ℕ)
      → Ready k s
      → contents s.ready_queue ≡ next ∷ rest
      → Turned pointers k s.current next rest
  turn-Turned pointers k {s} next rest (there, w, z) c =
      by_decision (schedule-Decided P offset (pointers 0) k there w z)
    where
      by_decision :
          (chosen : Option Switch) × (k' : Kernel) × (schedule P offset (pointers 0) k
              ≡ ok (chosen, k'))
            × Decided (pointers 0) (record k { scheduler = some s }) s chosen k'
          → Turned pointers k s.current next rest
      by_decision (chosen, k', e, stays c' none_ same) = absurd cc
      by_decision
            (
              chosen,
              k',
              e,
              switches id others t previous s' c' et ep x cr3 rsp0 off there' cur turned ts z' w',
            ) =
          (
            k',
            s',
            λ n. ap (λ m. m >>= λ r. turns n (λ i. pointers (suc i)) r.1) e,
            (there', w', z' ∙ z),
            cc,
            cc,
          )

  reached :
      (pointers : ℕ → ℕ) (before after : List ℕ) (id : ℕ) (k : Kernel) {s : SchedulerState}
      → Ready k s
      → contents s.ready_queue ≡ before ++ (id ∷ after)
      → (k' : Kernel) × (s' : SchedulerState) × (turns (suc (length before)) pointers k ≡ ok k')
        × (s'.current ≡ id)
        × Ready k' s'
  reached pointers [] after id k {s} w c =
      let (k', s', e, w', cur, rest) = turn-Turned pointers k id after w c in (k', s', e 0, cur, w')
  reached pointers (b ∷ before) after id k {s} w c =
      let (k', s', e, w', cur, rest) = turn-Turned pointers k b (before ++ (id ∷ after)) w c in
      let (k'', s'', e', cur', w'') =
        reached (λ i. pointers (suc i)) before (after ++ (s.current ∷ [])) id k' {s = s'} w'
          (rest ∙ append_assoc before (id ∷ after) (s.current ∷ [])) in
      (k'', s'', e (suc (length before)) ∙ e', cur', w'')

  -- No thread starves. From a well-formed state with no cleanup pending, a thread with `k` threads before
  -- it in the ready queue runs after `k + 1` passes of `schedule`, none of which panics, whatever stack
  -- pointers they save; the state is again well-formed with no cleanup pending, and `k` is less than 15.
  pub schedule-fair :
      (pointers : ℕ → ℕ) (before after : List ℕ) (id : ℕ) (k : Kernel) {s : SchedulerState}
      → k.scheduler ≡ some s
      → WellFormed s
      → s.zombie ≡ none
      → contents s.ready_queue ≡ before ++ (id ∷ after)
      → (length before < 15)
        × ((k' : Kernel) × (s' : SchedulerState) × (turns (suc (length before)) pointers k ≡ ok k')
            × (s'.current ≡ id)
            × Ready k' s')
  schedule-fair pointers before after id k {s} there w z c = (
    omega (
      arith,
      waiting_room (WellFormed-Sound w),
      length-contents s.ready_queue,
      ap length c,
      length-append before (id ∷ after),
    ),
    reached pointers before after id k (there, w, z) c,
  )
