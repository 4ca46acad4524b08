-- ===== src/Sched/Invariant.antt =====
-- What every operation of the scheduler keeps: a thread runs on its own CPU only, as the current one,
-- and each CPU has a thread of its own to fall back on.

use myos.Base.{
  ℕ, ◌<◌, ◌≡◌, refl, true, false, Bool, ◌||◌, inl, inr, some, arith, Bool-cases, subst, ◌∙◌, ap,
  sym,
}
use myos.Sched.{
  Thread, Sched, is_running, is_ready, candidate, woken, awake, wake_sleepers, max_threads,
  pick_next, pick_current,
}
use myos.Sched.Pick.{pick_next_cases}
use myos.Sched.Wake.{wake_sleepers_lem}

abbrev pub runnable : Thread → Bool
runnable t = is_running t.state || is_ready t.state

-- For n CPUs whose bootstrap threads stand at b.
pub record IsWf (n : ℕ) (b : ℕ → ℕ) (s : Sched) : Type 0 where
  pub runs :
      (i : ℕ)
      → i < max_threads
      → is_running (s.threads i).state ≡ true
      → s.current (s.threads i).cpu_id ≡ some i
  pub placed :
      (c : ℕ)
      → c < n
      → (i : ℕ) × (s.current c ≡ some i) × (i < max_threads) × ((s.threads i).cpu_id ≡ c)
  pub idle :
      (c : ℕ)
      → c < n
      → (b c < max_threads)
        × ((s.threads (b c)).cpu_id ≡ c)
        × ((s.threads (b c)).is_user ≡ false)
        × (runnable (s.threads (b c)) ≡ true)

-- A change of a thread that does not start it.
abbrev pub Tame : Thread → Thread → Type 0
Tame t t' =
    (t'.cpu_id ≡ t.cpu_id)
    × (t'.is_user ≡ t.is_user)
    × (is_running t'.state ≡ true → is_running t.state ≡ true)

pub Tame-IsWf :
    (n : ℕ) (b : ℕ → ℕ) (s s' : Sched)
    → s'.current ≡ s.current
    → ((i : ℕ) → i < max_threads → Tame (s.threads i) (s'.threads i))
    → ((c : ℕ) → c < n → runnable (s.threads (b c)) ≡ true → runnable (s'.threads (b c)) ≡ true)
    → IsWf n b s
    → IsWf n b s'
Tame-IsWf n b s s' same tame kept w = record {
  runs = λ i h run.
      let (cpu, _, before) = tame i h in
      ap (λ f. f (s'.threads i).cpu_id) same ∙ (ap s.current cpu ∙ w.runs i h (before run));
  placed = λ c h.
      let (i, e, inside, at) = w.placed c h in
      (i, ap (λ f. f c) same ∙ e, inside, (tame i inside).0 ∙ at);
  idle = λ c h.
      let (inside, at, user, run) = w.idle c h in
      let (cpu, same_user, _) = tame (b c) inside in
      (inside, cpu ∙ at, same_user ∙ user, kept c h run);
}

awake-Tame :
    (now : ℕ) (t : Thread)
    → Tame t (awake now t) × (runnable t ≡ true → runnable (awake now t) ≡ true)
awake-Tame now t = elim (Bool-cases (woken now t)) [
  | inl e ↦ rw e ((refl, refl, λ h. ground arith), λ h. refl)
  | inr e ↦ rw e ((refl, refl, λ h. h), λ h. h)
]

pub wake_sleepers-IsWf :
    (n : ℕ) (b : ℕ → ℕ) (now : ℕ) (s : Sched) → IsWf n b s → IsWf n b (wake_sleepers now s)
unfolding wake_sleepers
wake_sleepers-IsWf n b now s w =
    Tame-IsWf n b s (wake_sleepers now s) refl
      (λ i h.
        subst (Tame (s.threads i)) (sym (wake_sleepers_lem now s i h))
          (awake-Tame now (s.threads i)).0)
      (λ c h run.
        ap runnable (wake_sleepers_lem now s (b c) (w.idle c h).0)
        ∙ (awake-Tame now (s.threads (b c))).1 run)
      w

candidate-runnable :
    (c : ℕ) (t : Thread) → candidate c t ≡ true → (t.cpu_id ≡ c) × (runnable t ≡ true)
candidate-runnable c t h = ground arith

runnable-running :
    (c : ℕ) (t : Thread)
    → candidate c t ≡ false
    → t.cpu_id ≡ c
    → runnable t ≡ true
    → is_running t.state ≡ true
runnable-running c t h e r = ground arith

pick_current-some : (g : ℕ → Thread) (k : ℕ) → runnable (g k) ≡ true → pick_current g (some k) ≡ k
unfolding pick_current
pick_current-some g k r = rw r

-- The thread chosen is one of the CPU that can run.
pub pick_next-runnable :
    (n : ℕ) (b : ℕ → ℕ) (c : ℕ) (s : Sched)
    → IsWf n b s
    → c < n
    → let k = pick_next c s in
      (k < max_threads) × ((s.threads k).cpu_id ≡ c) × (runnable (s.threads k) ≡ true)
pick_next-runnable n b c s w h = elim (pick_next_cases c s) [
  | inl (inside, ok, _) ↦
      let (cpu, run) = candidate-runnable c (s.threads (pick_next c s)) ok in (inside, cpu, run)
  | inr (nobody, e) ↦
      let (inside, at, _, run) = w.idle c h in
      let running = runnable-running c (s.threads (b c)) (nobody (b c) inside) at run in
      let here : s.current c ≡ some (b c) = ap s.current (sym at) ∙ w.runs (b c) inside running in
      let picked = e ∙ (ap (pick_current s.threads) here ∙ pick_current-some s.threads (b c) run) in
      subst (λ k. (k < max_threads) × ((s.threads k).cpu_id ≡ c) × (runnable (s.threads k) ≡ true))
        (sym picked) (inside, at, run)
]
