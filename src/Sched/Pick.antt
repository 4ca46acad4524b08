-- ===== src/Sched/Pick.antt =====
-- The choice that `pick_next` of src/scheduler.c makes.
use myos.Base.{
  ℕ, zero, suc, ◌+◌, ◌<◌, ◌≤◌, ◌≡◌, refl, true, false, ◌&&◌, ◌≢◌, ◌∙◌, sym, ◌==◌, ==_refl, ◌⊎◌, inl,
  inr, Option, none, some, ltb, if◌then◌else◌, arith, Bool-cases, Option-cases, subst, ap,
}
use mathlib.Core.Bool.{true≢false}
use myos.Sched.{
  State, unused, ready, running, sleeping, blocked, zombie, is_ready, is_running, Thread, Sched,
  candidate, better, best_from, pick_next, pick_current, max_threads,
}

-- What the loop has chosen after the first i threads.
Chosen : ℕ → (ℕ → Thread) → ℕ → Option ℕ → Type 0
Chosen cpu g i none = (k : ℕ) → k < i → candidate cpu (g k) ≡ false
Chosen cpu g i (some b) =
    (b < i)
    × (candidate cpu (g b) ≡ true)
    × ((k : ℕ)
        → k < i
        → candidate cpu (g k) ≡ true
        → ((g k).priority ≤ (g b).priority) × (k < b → (g k).priority < (g b).priority))

Chosen-next :
    (cpu : ℕ) (g : ℕ → Thread) (i : ℕ) (best : Option ℕ)
    → Chosen cpu g i best
    → Chosen cpu g (i + 1) (if candidate cpu (g i) && better g best (g i) then some i else best)
unfolding Chosen
Chosen-next cpu g i none c = elim (Bool-cases (candidate cpu (g i))) [
  | inl e ↦ rw e (
    omega arith,
    e,
    λ k h ck. ground (arith, c k, ck, λ (same : k ≡ i). ap (λ j. (g j).priority) same),
  )
  | inr e ↦
      rw e (λ k h. ground (arith, c k, e, λ (same : k ≡ i). ap (λ j. candidate cpu (g j)) same))
]
Chosen-next cpu g i (some b) (inside, cb, all) = elim (Bool-cases (candidate cpu (g i))) [
  | inr e ↦ rw e (
    omega arith,
    cb,
    λ k h ck. ground (arith, all k, ck, e, λ (same : k ≡ i). ap (λ j. candidate cpu (g j)) same),
  )
  | inl e ↦ elim (Bool-cases (ltb (g b).priority (g i).priority)) [
    | inl lt ↦
        rw (e, lt)
          (
            omega arith,
            e,
            λ k h ck.
                ground (arith, all k, ck, lt, λ (same : k ≡ i). ap (λ j. (g j).priority) same),
          )
    | inr ge ↦
        rw (e, ge)
          (
            omega arith,
            cb,
            λ k h ck.
                ground (arith, all k, ck, ge, λ (same : k ≡ i). ap (λ j. (g j).priority) same),
          )
  ]
]

best_from-Chosen :
    (cpu : ℕ) (g : ℕ → Thread) (n i : ℕ) (best : Option ℕ)
    → Chosen cpu g i best
    → Chosen cpu g (i + n) (best_from cpu g n i best)
unfolding best_from
best_from-Chosen cpu g zero i best c = let e : i + 0 ≡ i = omega arith in rw e c
best_from-Chosen cpu g (suc n) i best c =
    let e : (i + 1) + n ≡ i + suc n = omega arith in
    let next = if candidate cpu (g i) && better g best (g i) then some i else best in
    subst (λ k. Chosen cpu g k (best_from cpu g n (i + 1) next)) e
      (best_from-Chosen cpu g n (i + 1) next (Chosen-next cpu g i best c))

-- A thread that waits for a CPU.
abbrev pub IsReadyOn : ℕ → Thread → Type 0
IsReadyOn cpu t = (t.state ≡ ready) × (t.cpu_id ≡ cpu)

-- The thread that a CPU falls back to: the one that runs there where it can go on, or else the first.
abbrev pub IsFallback : ℕ → Sched → ℕ → Type 0
IsFallback cpu s n =
    ((s.current cpu ≡ some n) × (((s.threads n).state ≡ running) ⊎ ((s.threads n).state ≡ ready)))
    ⊎ ((n ≡ 0) × (s.current cpu ≡ none))
    ⊎ ((n ≡ 0)
        × ((c : ℕ) × (s.current cpu ≡ some c)
            × ((s.threads c).state ≢ running)
            × ((s.threads c).state ≢ ready)))

is_ready_lem : (x : State) → is_ready x ≡ true → x ≡ ready
is_ready_lem ready h = refl
is_ready_lem unused h = absurd (true≢false (sym h))
is_ready_lem running h = absurd (true≢false (sym h))
is_ready_lem sleeping h = absurd (true≢false (sym h))
is_ready_lem blocked h = absurd (true≢false (sym h))
is_ready_lem zombie h = absurd (true≢false (sym h))

is_running_lem : (x : State) → is_running x ≡ true → x ≡ running
is_running_lem running h = refl
is_running_lem unused h = absurd (true≢false (sym h))
is_running_lem ready h = absurd (true≢false (sym h))
is_running_lem sleeping h = absurd (true≢false (sym h))
is_running_lem blocked h = absurd (true≢false (sym h))
is_running_lem zombie h = absurd (true≢false (sym h))

candidate-IsReadyOn : (cpu : ℕ) (t : Thread) → candidate cpu t ≡ true → IsReadyOn cpu t
candidate-IsReadyOn cpu t h = elim (Bool-cases (is_ready t.state)) [
  | inl e ↦
      let same : (t.cpu_id == cpu) ≡ true = ap (λ b. b && (t.cpu_id == cpu)) (sym e) ∙ h in
      (is_ready_lem t.state e, ground (arith, same))
  | inr e ↦ absurd (true≢false (sym h ∙ ap (λ b. b && (t.cpu_id == cpu)) e))
]

IsReadyOn-candidate : (cpu : ℕ) (t : Thread) → IsReadyOn cpu t → candidate cpu t ≡ true
IsReadyOn-candidate cpu t (e, e') =
    ap (λ x. is_ready x && (t.cpu_id == cpu)) e ∙ (ap (λ c. c == cpu) e' ∙ ==_refl cpu)

Unready : (cpu : ℕ) (t : Thread) → candidate cpu t ≡ false → ¬ IsReadyOn cpu t
Unready cpu t e r = true≢false (sym (IsReadyOn-candidate cpu t r) ∙ e)

pick_current-IsFallback :
    (cpu : ℕ) (s : Sched) → IsFallback cpu s (pick_current s.threads (s.current cpu))
unfolding pick_current
pick_current-IsFallback cpu s = elim (Option-cases (s.current cpu)) [
  | inl e ↦ subst (λ o. IsFallback cpu s (pick_current s.threads o)) (sym e) (inr (inl (refl, e)))
  | inr (c, e) ↦
      subst (λ o. IsFallback cpu s (pick_current s.threads o)) (sym e)
        (elim (Bool-cases (is_running (s.threads c).state)) [
          | inl r ↦ rw r (inl (e, inl (is_running_lem (s.threads c).state r)))
          | inr r ↦ elim (Bool-cases (is_ready (s.threads c).state)) [
            | inl d ↦ rw (r, d) (inl (e, inr (is_ready_lem (s.threads c).state d)))
            | inr d ↦
                rw (r, d)
                  (inr (
                    inr (
                      refl,
                      (
                        c,
                        e,
                        λ x. true≢false (ap is_running (sym x) ∙ r),
                        λ x. true≢false (ap is_ready (sym x) ∙ d),
                      ),
                    )))
          ]
        ])
]

-- The two ways of `pick_next`.
pub pick_next_cases :
    (cpu : ℕ) (s : Sched)
    → let n = pick_next cpu s in
      ((n < max_threads)
        × (candidate cpu (s.threads n) ≡ true)
        × ((k : ℕ)
            → k < max_threads
            → candidate cpu (s.threads k) ≡ true
            → ((s.threads k).priority ≤ (s.threads n).priority)
              × (k < n → (s.threads k).priority < (s.threads n).priority)))
      ⊎ (((k : ℕ) → k < max_threads → candidate cpu (s.threads k) ≡ false)
          × (n ≡ pick_current s.threads (s.current cpu)))
unfolding pick_next Chosen
pick_next_cases cpu s =
    let start : Chosen cpu s.threads 0 none = λ k h. ground arith in
    let chosen = best_from-Chosen cpu s.threads max_threads 0 none start in
    elim (Option-cases (best_from cpu s.threads max_threads 0 none)) [
      | inl e ↦ rw (e, pick_next) (inr (subst (Chosen cpu s.threads max_threads) e chosen, refl))
      | inr (b, e) ↦ rw (e, pick_next) (inl (subst (Chosen cpu s.threads max_threads) e chosen))
    ]

-- On a CPU, `pick_next` chooses, among the ready threads of that CPU, one of the highest priority,
-- and the first of these; where no thread of the CPU is ready, it chooses the thread that runs there
-- if that one is running or ready, and thread 0 otherwise.
pub pick_next_lem :
    (cpu : ℕ) (s : Sched)
    → let n = pick_next cpu s in
      ((n < max_threads)
        × IsReadyOn cpu (s.threads n)
        × ((k : ℕ)
            → k < max_threads
            → IsReadyOn cpu (s.threads k)
            → ((s.threads k).priority ≤ (s.threads n).priority)
              × (k < n → (s.threads k).priority < (s.threads n).priority)))
      ⊎ (((k : ℕ) → k < max_threads → ¬ IsReadyOn cpu (s.threads k)) × IsFallback cpu s n)
pick_next_lem cpu s = elim (pick_next_cases cpu s) [
  | inl (inside, best, all) ↦ inl (
    inside,
    candidate-IsReadyOn cpu (s.threads (pick_next cpu s)) best,
    λ k h r. all k h (IsReadyOn-candidate cpu (s.threads k) r),
  )
  | inr (nobody, e) ↦ inr (
    λ k h. Unready cpu (s.threads k) (nobody k h),
    subst (IsFallback cpu s) (sym e) (pick_current-IsFallback cpu s),
  )
]
