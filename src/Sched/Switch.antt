-- ===== src/Sched/Switch.antt =====
-- Switching threads keeps the invariant of `Sched.Invariant`.
use myos.Base.{
  ℕ, ◌<◌, ◌≡◌, ◌≢◌, refl, true, false, inl, inr, some, ◌==◌, update, arith, Bool-cases, subst, ◌∙◌,
  ap, sym, ◌⊎◌,
}
use myos.Sched.{
  Thread, Sched, running, is_running, leave, wake_sleepers, max_threads, pick_next, Outcome, resume,
  switch, do_switch, on_tick, yield,
}
use myos.Sched.Invariant.{IsWf, runnable, pick_next-runnable, wake_sleepers-IsWf}

-- The thread table after a switch from prev to next.
switched : ℕ → ℕ → ℕ → (ℕ → Thread) → ℕ → Thread
switched frame prev next g =
    let g₁ = update g prev (leave frame (g prev)) in
    update g₁ next (record (g₁ next) { state = running })

leave-Keeps :
    (frame : ℕ) (t : Thread)
    → ((leave frame t).cpu_id ≡ t.cpu_id)
      × ((leave frame t).is_user ≡ t.is_user)
      × (is_running (leave frame t).state ≡ false)
      × (runnable t ≡ true → runnable (leave frame t) ≡ true)
leave-Keeps frame t = elim (Bool-cases (is_running t.state)) [
  | inl e ↦ rw e (refl, refl, refl, λ h. refl)
  | inr e ↦ rw e (refl, refl, e, λ h. rw e h)
]

-- In it, next runs, prev does not, and a third thread is unchanged.
module _ (frame prev next : ℕ) (g : ℕ → Thread) (ne : next ≢ prev) where
  switched-next : switched frame prev next g next ≡ record (g next) { state = running }
  unfolding switched
  switched-next = ground arith

  switched-prev : switched frame prev next g prev ≡ leave frame (g prev)
  unfolding switched
  switched-prev = ground arith

  switched-other : (k : ℕ) → k ≢ next → k ≢ prev → switched frame prev next g k ≡ g k
  unfolding switched
  switched-other k kn kp = ground arith

-- What a switch leaves of a thread.
Kept : ℕ → ℕ → ℕ → Thread → Thread → Type 0
Kept prev next i t t' =
    (t'.cpu_id ≡ t.cpu_id)
    × (t'.is_user ≡ t.is_user)
    × (runnable t ≡ true → runnable t' ≡ true)
    × (is_running t'.state ≡ true
        → (i ≡ next) ⊎ ((i ≢ next) × (i ≢ prev) × (is_running t.state ≡ true)))

switched-Kept :
    (frame prev next : ℕ) (g : ℕ → Thread)
    → next ≢ prev
    → (i : ℕ) → Kept prev next i (g i) (switched frame prev next g i)
unfolding Kept
switched-Kept frame prev next g ne i = by_place (three i)
  where
    three : (i : ℕ) → (i ≡ next) ⊎ ((i ≡ prev) ⊎ ((i ≢ next) × (i ≢ prev)))
    three i = ground arith

    at_next : Kept prev next next (g next) (switched frame prev next g next)
    at_next = rw (switched-next frame prev next g ne) (refl, refl, λ h. refl, λ h. inl refl)

    at_prev : Kept prev next prev (g prev) (switched frame prev next g prev)
    at_prev =
        let (cpu, user, stopped, run) = leave-Keeps frame (g prev) in
        subst (Kept prev next prev (g prev)) (sym (switched-prev frame prev next g ne))
          (cpu, user, run, λ h. ground (arith, h, stopped))

    by_place :
        (i ≡ next) ⊎ ((i ≡ prev) ⊎ ((i ≢ next) × (i ≢ prev)))
        → Kept prev next i (g i) (switched frame prev next g i)
    by_place (inl e) =
        subst (λ k. Kept prev next k (g k) (switched frame prev next g k)) (sym e) at_next
    by_place (inr (inl e)) =
        subst (λ k. Kept prev next k (g k) (switched frame prev next g k)) (sym e) at_prev
    by_place (inr (inr (kn, kp))) =
        rw (switched-other frame prev next g ne i kn kp) (refl, refl, λ h. h, λ h. inr (kn, kp, h))

switch-IsWf :
    (n : ℕ) (b : ℕ → ℕ) (cpu frame prev next : ℕ) (s s' : Sched)
    → IsWf n b s
    → s.current cpu ≡ some prev
    → next < max_threads
    → (s.threads next).cpu_id ≡ cpu
    → next ≢ prev
    → s'.threads ≡ switched frame prev next s.threads
    → s'.current ≡ update s.current cpu (some next)
    → IsWf n b s'
unfolding Kept
switch-IsWf n b cpu frame prev next s s' w here inside at ne threads current = record {
  runs = λ i h r. runs i h (kept i) r;
  placed = λ c h. placed c h (Bool-cases (c == cpu));
  idle = λ c h.
      let (bi, ba, bu, br) = w.idle c h in
      let (cpu_same, user_same, run, _) = kept (b c) in (bi, cpu_same ∙ ba, user_same ∙ bu, run br);
}
  where
    kept : (i : ℕ) → Kept prev next i (s.threads i) (s'.threads i)
    kept i =
        subst (λ g. Kept prev next i (s.threads i) (g i)) (sym threads)
          (switched-Kept frame prev next s.threads ne i)

    now_at : (c : ℕ) → (c == cpu) ≡ true → s'.current c ≡ some next
    now_at c e = ap (λ f. f c) current ∙ rw e refl

    still_at : (c : ℕ) → (c == cpu) ≡ false → s'.current c ≡ s.current c
    still_at c e = ap (λ f. f c) current ∙ rw e refl

    other_cpu :
        (i : ℕ)
        → i ≢ prev
        → s.current (s.threads i).cpu_id ≡ some i
        → ((s.threads i).cpu_id == cpu) ≡ false
    other_cpu i kp e = elim (Bool-cases ((s.threads i).cpu_id == cpu)) [
      | inr apart ↦ apart
      | inl equal ↦
          let same : (s.threads i).cpu_id ≡ cpu = ground arith in
          let both : some i ≡ some prev = sym e ∙ (ap s.current same ∙ here) in
          ground (arith, both, kp)
    ]

    runs :
        (i : ℕ)
        → i < max_threads
        → Kept prev next i (s.threads i) (s'.threads i)
        → is_running (s'.threads i).state ≡ true
        → s'.current (s'.threads i).cpu_id ≡ some i
    runs i h (cpu_same, _, _, was) r = elim (was r) [
      | inl e ↦
          let cpu_here : (s'.threads i).cpu_id ≡ cpu =
            cpu_same ∙ (ap (λ k. (s.threads k).cpu_id) e ∙ at) in
          now_at (s'.threads i).cpu_id (ground arith) ∙ ap some (sym e)
      | inr (_, kp, ran) ↦
          let old = w.runs i h ran in
          ap s'.current cpu_same ∙ (still_at (s.threads i).cpu_id (other_cpu i kp old) ∙ old)
    ]

    placed :
        (c : ℕ)
        → c < n
        → ((c == cpu) ≡ true) ⊎ ((c == cpu) ≡ false)
        → (i : ℕ) × (s'.current c ≡ some i) × (i < max_threads) × ((s'.threads i).cpu_id ≡ c)
    placed c h (inl e) =
        let same : c ≡ cpu = ground arith in
        (next, now_at c e, inside, (kept next).0 ∙ (at ∙ sym same))
    placed c h (inr e) =
        let (i, old, i_inside, i_at) = w.placed c h in
        (i, still_at c e ∙ old, i_inside, (kept i).0 ∙ i_at)

-- `do_switch` to a thread of the CPU resumes some frame.
unfoldable pub Resumes : ℕ → (ℕ → ℕ) → Outcome → Type 0
Resumes n b o = (f : ℕ) × (s : Sched) × (o ≡ resume f s) × IsWf n b s

resume-Resumes :
    (n : ℕ) (b : ℕ → ℕ) (frame : ℕ) (s : Sched) → IsWf n b s → Resumes n b (resume frame s)
unfolding Resumes
resume-Resumes n b frame s w = (frame, s, refl, w)

switch-Resumes :
    (n : ℕ) (b : ℕ → ℕ) (cpu frame prev next : ℕ) (s : Sched)
    → IsWf n b s
    → s.current cpu ≡ some prev
    → next < max_threads
    → (s.threads next).cpu_id ≡ cpu
    → next ≢ prev
    → Resumes n b (switch cpu frame prev next s)
unfolding Resumes switch switched
switch-Resumes n b cpu frame prev next s w here inside at ne =
    (_, _, refl, switch-IsWf n b cpu frame prev next s _ w here inside at ne refl refl)

pub do_switch-Resumes :
    (n : ℕ) (b : ℕ → ℕ) (cpu frame next : ℕ) (s : Sched)
    → IsWf n b s
    → cpu < n
    → next < max_threads
    → (s.threads next).cpu_id ≡ cpu
    → Resumes n b (do_switch cpu frame next s)
unfolding do_switch
do_switch-Resumes n b cpu frame next s w h inside at =
    let (prev, here, _, _) = w.placed cpu h in
    let stays : Resumes n b (resume frame s) = resume-Resumes n b frame s w in
    elim (Bool-cases (next == prev)) [
      | inl e ↦ rw (here, do_switch) (rw e stays)
      | inr e ↦
          let ne : next ≢ prev = ground arith in
          rw (here, do_switch) (rw e (switch-Resumes n b cpu frame prev next s w here inside at ne))
    ]

pub on_tick-Resumes :
    (n : ℕ) (b : ℕ → ℕ) (cpu now frame : ℕ) (s : Sched)
    → IsWf n b s
    → cpu < n
    → Resumes n b (on_tick cpu now frame s)
unfolding on_tick
on_tick-Resumes n b cpu now frame s w h =
    let awake = wake_sleepers-IsWf n b now s w in
    let (inside, at, _) = pick_next-runnable n b cpu (wake_sleepers now s) awake h in
    do_switch-Resumes n b cpu frame (pick_next cpu (wake_sleepers now s)) (wake_sleepers now s)
      awake h inside at

pub yield-Resumes :
    (n : ℕ) (b : ℕ → ℕ) (cpu now frame : ℕ) (s : Sched)
    → IsWf n b s
    → cpu < n
    → Resumes n b (yield cpu now frame s)
unfolding yield on_tick
yield-Resumes n b cpu now frame s w h = on_tick-Resumes n b cpu now frame s w h
