-- ===== src/Sched/Wake.antt =====
-- Waking sleepers, and what it leaves.
use myos.Base.{
  ℕ, zero, suc, ◌+◌, ◌<◌, ◌≡◌, refl, true, false, ◌&&◌, inl, inr, ltb, leb, ◌==◌, if◌then◌else◌,
  update, arith, Bool-cases, sym, ◌∙◌, ap,
}
use myos.Sched.{Thread, Sched, awake, wake_from, wake_sleepers, max_threads}

wake_from-at :
    (now n i : ℕ) (g : ℕ → Thread) (k : ℕ)
    → wake_from now n i g k ≡ (if leb i k && ltb k (i + n) then awake now (g k) else g k)
unfolding wake_from
wake_from-at now zero i g k = let e : (leb i k && ltb k (i + 0)) ≡ false = ground arith in rw e
wake_from-at now (suc n) i g k = elim (Bool-cases (k == i)) [
  | inl e ↦
      let same : k ≡ i = ground arith in
      let past : (leb (i + 1) k && ltb k (i + 1 + n)) ≡ false = ground arith in
      let here : (leb i k && ltb k (i + suc n)) ≡ true = ground arith in
      wake_from-at now n (i + 1) (update g i (awake now (g i))) k
      ∙ rw (past, here, e) (ap (λ j. awake now (g j)) (sym same))
  | inr e ↦
      let there : (leb (i + 1) k && ltb k (i + 1 + n)) ≡ (leb i k && ltb k (i + suc n)) =
        ground arith in
      wake_from-at now n (i + 1) (update g i (awake now (g i))) k ∙ rw (there, e) refl
]

-- `wake_sleepers` makes ready exactly the sleeping threads whose time has come, and changes nothing
-- else of any thread.
pub wake_sleepers_lem :
    (now : ℕ) (s : Sched) (k : ℕ)
    → k < max_threads
    → (wake_sleepers now s).threads k ≡ awake now (s.threads k)
unfolding wake_sleepers
wake_sleepers_lem now s k h =
    let e : (leb 0 k && ltb k (0 + max_threads)) ≡ true = ground arith in
    wake_from-at now max_threads 0 s.threads k
    ∙ ap (λ b. if b then awake now (s.threads k) else s.threads k) e
