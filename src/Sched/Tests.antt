-- ===== src/Sched/Tests.antt =====
-- Runs of the scheduler, and the theorems at concrete tables.
use myos.Base.{
  ℕ, ◌<◌, ◌≤◌, ◌≡◌, ◌≢◌, refl, true, false, ◌⊎◌, Option, none, some, [], ◌==◌, if◌then◌else◌, arith,
  ap, sym, ◌∙◌,
}
use myos.Base.Int.{pos, minus_one}
use myos.Sched.{
  Thread, Sched, unused, ready, running, blocked, zombie, max_threads, pick_next, best_from,
  mark_zombie,
}
use myos.Sched.Pick.{pick_next_lem, IsReadyOn, IsFallback}
use myos.Sched.Invariant.{IsWf}
use myos.Sched.Exit.{mark_zombie_lem, Elsewhere}
use myos.Sched.Steps.{sleeps, run_event, run_event-IsWf, Allowed}

abbrev slot : Thread
slot = record {
  id = 0;
  state = unused;
  is_user = false;
  priority = 0;
  parent = none;
  children = 0;
  exit_code = pos 0;
  wait_target = pos 0;
  wait_status_ptr = 0;
  rsp = 0;
  cr3 = 0;
  kstack = 0;
  kstack_size = 0;
  wakeup_tick = 0;
  cpu_id = 0;
}

-- One CPU: the bootstrap thread is ready, thread 1 runs, its parent 2 waits for it.
abbrev three : Sched
three = record {
  threads = λ i.
      if i == 0
      then record slot { state = ready; priority = 1; rsp = 1000 }
      else if i == 1
      then record slot {
        id = 1;
        state = running;
        is_user = true;
        priority = 1;
        parent = some 2;
        cr3 = 0x5000;
      }
      else if i == 2
      then record slot {
        id = 2;
        state = blocked;
        is_user = true;
        priority = 1;
        children = 1;
        wait_target = minus_one;
        wait_status_ptr = 0x7000;
        cr3 = 0x6000;
      }
      else slot;
  current = λ c. if c == 0 then some 1 else none;
  rsp0 = λ _. 0;
  root = λ _. 0x5000;
  stores = [];
}

picks_bootstrap : pick_next 0 three ≡ 0
unfolding pick_next best_from
picks_bootstrap = refl

three-IsWf : IsWf 1 (λ _. 0) three
three-IsWf = record {
  runs = λ i h r.
      let one : i ≡ 1 = ground arith in
      ap (λ k. three.current (three.threads k).cpu_id) one ∙ ap some (sym one);
  placed = λ c h.
      let zero_cpu : c ≡ 0 = omega arith in
      (1, ap three.current zero_cpu, omega arith, sym zero_cpu);
  idle = λ c h. let zero_cpu : c ≡ 0 = omega arith in (omega arith, sym zero_cpu, refl, refl);
}

run_event-IsWf_example :
    (s' : Sched) × (run_event 0 (sleeps 5 10) three ≡ some s') × IsWf 1 (λ _. 0) s'
unfolding Allowed
run_event-IsWf_example =
    run_event-IsWf 1 (λ _. 0) 0 (sleeps 5 10) three three-IsWf (omega arith) (λ e. ground arith)

pick_next_lem_example :
    let n = pick_next 0 three in
    ((n < max_threads)
      × IsReadyOn 0 (three.threads n)
      × ((k : ℕ)
          → k < max_threads
          → IsReadyOn 0 (three.threads k)
          → ((three.threads k).priority ≤ (three.threads n).priority)
            × (k < n → (three.threads k).priority < (three.threads n).priority)))
    ⊎ (((k : ℕ) → k < max_threads → ¬ IsReadyOn 0 (three.threads k)) × IsFallback 0 three n)
pick_next_lem_example = pick_next_lem 0 three

abbrev or_0 : Option ℕ → ℕ
or_0 none = 0
or_0 (some p) = p

other_parent : (three.threads 1).parent ≢ some 1
other_parent e = let two_one = ap or_0 e in omega (arith, two_one)

mark_zombie_lem_example :
    let s' = mark_zombie 0x5000 1 (pos 3) three in
    (s'.threads 1 ≡ record (three.threads 1) { exit_code = pos 3; state = zombie })
    × Elsewhere 0x5000 1 (pos 3) three (three.threads 1).parent s'
mark_zombie_lem_example = mark_zombie_lem 0x5000 1 (pos 3) three other_parent (omega arith)
