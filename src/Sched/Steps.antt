-- ===== src/Sched/Steps.antt =====
-- The scheduler's entry points as steps of one machine of several CPUs, and what every step keeps.
use myos.Base.{
  ℕ, ◌-◌, ◌<◌, ◌≡◌, ◌≢◌, refl, true, false, ◌&&◌, inl, inr, Option, none, some, ◌==◌, update, arith,
  Bool-cases, ==_refl, Option-cases, subst, ◌∙◌, ap, sym, if_both, ◌⊎◌,
}
use myos.Base.Int.{ℤ}
use myos.Sched.{
  Thread, Sched, zombie, is_blocked, is_zombie, is_some_of, waits_for, notify_parent, mark_zombie,
  find_thread_by_id, kill_found, kill, negate, leave_zombie, on_exit, sleep, pick_next, Outcome,
  resume, halt, fault, on_tick, yield,
}
use myos.Sched.Invariant.{IsWf, runnable, Tame, Tame-IsWf, pick_next-runnable}
use myos.Sched.Switch.{Resumes, do_switch-Resumes, on_tick-Resumes, yield-Resumes}

-- A change of one thread that does not start it, and stops it only if it is no bootstrap thread.
change-IsWf :
    (n : ℕ) (b : ℕ → ℕ) (k : ℕ) (t : Thread) (s s' : Sched)
    → s'.current ≡ s.current
    → s'.threads ≡ update s.threads k t
    → Tame (s.threads k) t
    → ((c : ℕ) → c < n → b c ≡ k → runnable (s.threads k) ≡ true → runnable t ≡ true)
    → IsWf n b s
    → IsWf n b s'
change-IsWf n b k t s s' current threads tame kept w =
    Tame-IsWf n b s s' current (λ i h. subst (λ g. Tame (s.threads i) (g i)) (sym threads) (at i))
      (λ c h run. ap (λ g. runnable (g (b c))) threads ∙ still c h run) w
  where
    at : (i : ℕ) → Tame (s.threads i) (update s.threads k t i)
    at i = elim (Bool-cases (i == k)) [
      | inl e ↦
          let same : k ≡ i = ground arith in
          subst (λ j. Tame (s.threads j) (update s.threads k t j)) same (rw (==_refl k) tame)
      | inr e ↦ rw e (refl, refl, λ h. h)
    ]

    still :
        (c : ℕ)
        → c < n
        → runnable (s.threads (b c)) ≡ true
        → runnable (update s.threads k t (b c)) ≡ true
    still c h run = elim (Bool-cases (b c == k)) [
      | inl e ↦
          let same : b c ≡ k = ground arith in
          rw e (kept c h same (ap (λ j. runnable (s.threads j)) (sym same) ∙ run))
      | inr e ↦ rw e run
    ]

notify_parent-IsWf :
    (n : ℕ) (b : ℕ → ℕ) (root p t : ℕ) (s : Sched)
    → IsWf n b s
    → IsWf n b (notify_parent root p t s)
unfolding notify_parent
notify_parent-IsWf n b root p t s w =
    if_both (IsWf n b)
      (is_blocked (mid.threads p).state && waits_for (mid.threads p).wait_target (mid.threads t).id)
      (change-IsWf n b p _ mid _ refl refl (refl, refl, λ h. ground arith) (λ c h e r. refl)
        mid_IsWf)
      mid_IsWf
  where
    mid : Sched
    mid = record s {
      threads = update s.threads p (record (s.threads p) { children = (s.threads p).children - 1 });
    }

    mid_IsWf : IsWf n b mid
    mid_IsWf = change-IsWf n b p _ s mid refl refl (refl, refl, λ h. h) (λ c h e r. r) w

mark_zombie-IsWf :
    (n : ℕ) (b : ℕ → ℕ) (root t : ℕ) (code : ℤ) (s : Sched)
    → ((c : ℕ) → c < n → b c ≢ t)
    → IsWf n b s
    → IsWf n b (mark_zombie root t code s)
unfolding mark_zombie
mark_zombie-IsWf n b root t code s ne w = told (s.threads t).parent
  where
    dead : Sched
    dead = record s {
      threads = update s.threads t (record (s.threads t) { exit_code = code; state = zombie });
    }

    dead_IsWf : IsWf n b dead
    dead_IsWf =
        change-IsWf n b t _ s dead refl refl (refl, refl, λ h. ground arith)
          (λ c h e. absurd (ne c h e)) w

    told : (o : Option ℕ) → IsWf n b (elim o [ none ↦ dead | some p ↦ notify_parent root p t dead ])
    told none = dead_IsWf
    told (some p) = notify_parent-IsWf n b root p t dead dead_IsWf

notify_parent-zombie :
    (root p t : ℕ) (s : Sched)
    → (s.threads t).state ≡ zombie
    → runnable ((notify_parent root p t s).threads t) ≡ false
unfolding notify_parent
notify_parent-zombie root p t s dead = elim (Bool-cases (t == p)) [
  | inl e ↦
      let same : p ≡ t = ground arith in
      let dead_p : (s.threads p).state ≡ zombie = ap (λ k. (s.threads k).state) same ∙ dead in
      rw (e, ==_refl p) (rw dead_p (rw e refl))
  | inr e ↦ ground (arith, dead, e)
]

-- A thread marked as a zombie cannot be chosen, even where it is its own parent.
mark_zombie-zombie :
    (root t : ℕ) (code : ℤ) (s : Sched) → runnable ((mark_zombie root t code s).threads t) ≡ false
unfolding mark_zombie
mark_zombie-zombie root t code s = told (s.threads t).parent
  where
    dead : Sched
    dead = record s {
      threads = update s.threads t (record (s.threads t) { exit_code = code; state = zombie });
    }

    told :
        (o : Option ℕ)
        → runnable (
            (elim o as (λ x. Sched) [ none ↦ dead | some p ↦ notify_parent root p t dead ]).threads
              t)
          ≡ false
    told none = rw (==_refl t)
    told (some p) = notify_parent-zombie root p t dead (rw (==_refl t))

kill-IsWf :
    (n : ℕ) (b : ℕ → ℕ) (cpu : ℕ) (pid sig : ℤ) (s : Sched)
    → IsWf n b s
    → IsWf n b (kill cpu pid sig s).1
unfolding kill kill_found
kill-IsWf n b cpu pid sig s w = elim (Option-cases (find_thread_by_id pid s)) [
  | inl e ↦ rw (e, kill) w
  | inr (t, e) ↦ rw (e, kill) (found t)
]
  where
    idle-ne : (t : ℕ) → (s.threads t).is_user ≡ true → (c : ℕ) → c < n → b c ≢ t
    idle-ne t user c h e =
        let (_, _, kernel, _) = w.idle c h in
        ground (arith, sym kernel ∙ (ap (λ k. (s.threads k).is_user) e ∙ user))

    marked :
        (t : ℕ)
        → (s.threads t).is_user ≡ true
        → IsWf n b (mark_zombie (s.root cpu) t (negate sig) s)
    marked t user = mark_zombie-IsWf n b (s.root cpu) t (negate sig) s (idle-ne t user) w

    found : (t : ℕ) → IsWf n b (kill_found cpu (s.current cpu) sig t s).1
    found t = elim (Bool-cases (s.threads t).is_user) [
      | inl user ↦ rw user (
          if_both (λ (r : ℤ × Sched). IsWf n b r.1) (is_some_of t (s.current cpu)) w
            (if_both (λ (r : ℤ × Sched). IsWf n b r.1) (is_zombie (s.threads t).state) w
              (marked t user)))
      | inr kernel ↦ rw kernel w
    ]

sleep-IsWf :
    (n : ℕ) (b : ℕ → ℕ) (cpu now ticks i : ℕ) (s : Sched)
    → IsWf n b s
    → s.current cpu ≡ some i
    → ((c : ℕ) → c < n → b c ≢ i)
    → (s' : Sched) × (sleep cpu now ticks s ≡ some s') × IsWf n b s'
unfolding sleep
sleep-IsWf n b cpu now ticks i s w here ne =
    rw (here, sleep)
      (
        _,
        refl,
        change-IsWf n b i _ s _ refl refl (refl, refl, λ h. ground arith)
            (λ c h e. absurd (ne c h e)) w,
      )

-- Once the exiting thread is a zombie, some thread of the CPU goes on.
leave_zombie-Resumes :
    (n : ℕ) (b : ℕ → ℕ) (cpu frame cur : ℕ) (s : Sched)
    → IsWf n b s
    → cpu < n
    → runnable (s.threads cur) ≡ false
    → Resumes n b (leave_zombie cpu frame cur s)
unfolding leave_zombie
leave_zombie-Resumes n b cpu frame cur s w h dead =
    let (inside, at, run) = pick_next-runnable n b cpu s w h in
    let other : (pick_next cpu s == cur) ≡ false =
      apart run (Bool-cases (pick_next cpu s == cur)) in
    rw other (do_switch-Resumes n b cpu frame (pick_next cpu s) s w h inside at)
  where
    apart :
        runnable (s.threads (pick_next cpu s)) ≡ true
        → ((pick_next cpu s == cur) ≡ true) ⊎ ((pick_next cpu s == cur) ≡ false)
        → (pick_next cpu s == cur) ≡ false
    apart run (inr e) = e
    apart run (inl e) =
        let same : pick_next cpu s ≡ cur = ground arith in
        ground (arith, sym dead ∙ (ap (λ k. runnable (s.threads k)) (sym same) ∙ run))

-- A current thread of a CPU that is not its bootstrap thread is none of another CPU either.
current-ne :
    (n : ℕ) (b : ℕ → ℕ) (cpu i : ℕ) (s : Sched)
    → IsWf n b s
    → cpu < n
    → s.current cpu ≡ some i
    → i ≢ b cpu
    → (c : ℕ) → c < n
    → b c ≢ i
current-ne n b cpu i s w h here ne c hc e =
    let (j, at_j, _, cpu_j) = w.placed cpu h in
    let (_, cpu_c, _, _) = w.idle c hc in
    let same : some i ≡ some j = sym here ∙ at_j in
    let of_i : (s.threads i).cpu_id ≡ c = ap (λ k. (s.threads k).cpu_id) (sym e) ∙ cpu_c in
    meets j same cpu_j of_i
  where
    meets : (j : ℕ) → some i ≡ some j → (s.threads j).cpu_id ≡ cpu → (s.threads i).cpu_id ≡ c → ⊥
    meets j same cpu_j of_i =
        let ij : i ≡ j = ground (arith, same) in
        let c_cpu : c ≡ cpu = sym of_i ∙ (ap (λ k. (s.threads k).cpu_id) ij ∙ cpu_j) in
        ne (sym e ∙ ap b c_cpu)

on_exit-Resumes :
    (n : ℕ) (b : ℕ → ℕ) (cpu frame i : ℕ) (code : ℤ) (s : Sched)
    → IsWf n b s
    → cpu < n
    → s.current cpu ≡ some i
    → ((c : ℕ) → c < n → b c ≢ i)
    → Resumes n b (on_exit cpu frame code s)
unfolding on_exit
on_exit-Resumes n b cpu frame i code s w h here ne =
    let saved = record s { threads = update s.threads i (record (s.threads i) { rsp = frame }) } in
    let saved_IsWf = change-IsWf n b i _ s saved refl refl (refl, refl, λ h. h) (λ c h e r. r) w in
    rw (here, on_exit)
      (leave_zombie-Resumes n b cpu frame i (mark_zombie (s.root cpu) i code saved)
        (mark_zombie-IsWf n b (s.root cpu) i code saved ne saved_IsWf) h
        (mark_zombie-zombie (s.root cpu) i code saved))

-- What happens on a CPU: the timer or a yield, with the tick count and the frame interrupted; and
-- calls of the thread that runs there.
pub data Event : Type 0 where
  tick yields : ℕ → ℕ → Event
  sleeps : ℕ → ℕ → Event
  exits : ℕ → ℤ → Event
  kills : ℤ → ℤ → Event

abbrev pub resumed : Outcome → Option Sched
resumed (resume f s) = some s
resumed halt = none
resumed fault = none

pub run_event : ℕ → Event → Sched → Option Sched
run_event cpu (tick now frame) s = resumed (on_tick cpu now frame s)
run_event cpu (yields now frame) s = resumed (yield cpu now frame s)
run_event cpu (sleeps now ticks) s = sleep cpu now ticks s
run_event cpu (exits frame code) s = resumed (on_exit cpu frame code s)
run_event cpu (kills pid sig) s = some (kill cpu pid sig s).1

-- The bootstrap thread of a CPU neither sleeps nor exits.
unfoldable pub Allowed : (ℕ → ℕ) → ℕ → Sched → Event → Type 0
Allowed b cpu s (sleeps now ticks) = s.current cpu ≢ some (b cpu)
Allowed b cpu s (exits frame code) = s.current cpu ≢ some (b cpu)
Allowed b cpu s e = Unit {0}

resumed-IsWf :
    (n : ℕ) (b : ℕ → ℕ) (o : Outcome)
    → Resumes n b o
    → (s : Sched) × (resumed o ≡ some s) × IsWf n b s
unfolding Resumes
resumed-IsWf n b o (f, s, e, w) = (s, ap resumed e, w)

-- From a state in which each of n CPUs has a current thread of its own and a bootstrap thread of its
-- own that is ready or runs, and in which a thread that runs is the current one of its CPU, every
-- event on one of the CPUs that is allowed succeeds, without a null thread and without halting, and
-- leads to such a state again: the timer, a yield, a sleep or an exit of a thread other than the
-- bootstrap thread, and a kill of any thread.
pub run_event-IsWf :
    (n : ℕ) (b : ℕ → ℕ) (cpu : ℕ) (e : Event) (s : Sched)
    → IsWf n b s
    → cpu < n
    → Allowed b cpu s e
    → (s' : Sched) × (run_event cpu e s ≡ some s') × IsWf n b s'
unfolding run_event Allowed
run_event-IsWf n b cpu (tick now frame) s w h a =
    resumed-IsWf n b _ (on_tick-Resumes n b cpu now frame s w h)
run_event-IsWf n b cpu (yields now frame) s w h a =
    resumed-IsWf n b _ (yield-Resumes n b cpu now frame s w h)
run_event-IsWf n b cpu (sleeps now ticks) s w h a =
    let (i, here, _, _) = w.placed cpu h in
    sleep-IsWf n b cpu now ticks i s w here
      (current-ne n b cpu i s w h here (λ same. a (here ∙ ap some same)))
run_event-IsWf n b cpu (exits frame code) s w h a =
    let (i, here, _, _) = w.placed cpu h in
    resumed-IsWf n b _ (
      on_exit-Resumes n b cpu frame i code s w h here
        (current-ne n b cpu i s w h here (λ same. a (here ∙ ap some same))))
run_event-IsWf n b cpu (kills pid sig) s w h a = (_, refl, kill-IsWf n b cpu pid sig s w)
