-- ===== src/Sched/Exit.antt =====
-- What the exit or the kill of a thread tells its parent.
use mathlib.Core.Bool.{true≢false}
use myos.Base.{
  ℕ, zero, suc, ◌-◌, ◌<◌, ◌%◌, ◌^◌, ◌≡◌, ◌≢◌, refl, Bool, true, false, ◌&&◌, ◌⊎◌, inl, inr, Option,
  none, some, List, ◌∷◌, ◌==◌, ltb, if◌then◌else◌, update, arith, ==_refl, ◌∙◌, ap, sym, subst,
  Bool-cases, Option-cases,
}
use myos.Base.Int.{ℤ, pos, negsuc}
use myos.Sched.{
  State, unused, ready, running, sleeping, blocked, zombie, is_blocked, Thread, Sched, Store,
  to_int, same_int, waits_for, notify_parent, mark_zombie,
}

-- A wait for the child with an id: for this one, or, where the target is not positive, for any.
abbrev pub Awaits : ℤ → ℕ → Type 0
Awaits (negsuc n) id = Path Bool true true
Awaits (pos n) id = (n ≡ 0) ⊎ (n ≡ id)

-- A thread that is blocked in a wait for the child with an id.
abbrev pub IsWaiting : ℕ → Thread → Type 0
IsWaiting id p = (p.state ≡ blocked) × Awaits p.wait_target id

-- What the end of a child does to its parent, and to the memory of the program that runs: a parent
-- that waits for it waits no longer, and has the code where it asked for it.
abbrev pub Tells : ℕ → ℕ → ℤ → Thread → Thread → List Store → List Store → Type 0
Tells root id code p p' stores stores' =
    (IsWaiting id p
      × (p' ≡ record p {
        children = p.children - 1;
        wait_target = pos 0;
        wait_status_ptr = 0;
        state = ready;
      })
      × (((p.wait_status_ptr ≡ 0) × (stores' ≡ stores))
          ⊎ ((p.wait_status_ptr ≢ 0)
              × (stores'
                  ≡ record { root = root; addr = p.wait_status_ptr; value = code } ∷ stores))))
    ⊎ ((¬ IsWaiting id p) × (p' ≡ record p { children = p.children - 1 }) × (stores' ≡ stores))

-- What the end of the thread t changes beside the thread, by its parent.
abbrev pub Elsewhere : ℕ → ℕ → ℤ → Sched → Option ℕ → Sched → Type 0
Elsewhere root t code s none s' =
    ((k : ℕ) → k ≢ t → s'.threads k ≡ s.threads k) × (s'.stores ≡ s.stores)
Elsewhere root t code s (some p) s' =
    Tells root (s.threads t).id code (s.threads p) (s'.threads p) s.stores s'.stores
    × ((k : ℕ) → k ≢ t → k ≢ p → s'.threads k ≡ s.threads k)

is_blocked_lem : (x : State) → is_blocked x ≡ true → x ≡ blocked
is_blocked_lem blocked h = refl
is_blocked_lem unused h = absurd (true≢false (sym h))
is_blocked_lem ready h = absurd (true≢false (sym h))
is_blocked_lem running h = absurd (true≢false (sym h))
is_blocked_lem sleeping h = absurd (true≢false (sym h))
is_blocked_lem zombie h = absurd (true≢false (sym h))

to_int_lem : (n : ℕ) → n < 2 ^ 31 → to_int n ≡ pos n
unfolding to_int
to_int_lem n h =
    let w : n % 0x100000000 ≡ n = omega (arith, h) in
    let e : ltb n 0x80000000 ≡ true = ground (arith, h) in rw (w, e) refl

waits_for-Awaits :
    (target : ℤ) (id : ℕ) → id < 2 ^ 31 → waits_for target id ≡ true → Awaits target id
waits_for-Awaits (negsuc n) id h e = refl
waits_for-Awaits (pos zero) id h e = inl refl
waits_for-Awaits (pos (suc n)) id h e =
    let same : (suc n == id) ≡ true = sym (ap (same_int (pos (suc n))) (to_int_lem id h)) ∙ e in
    inr (ground (arith, same))

Awaits-waits_for :
    (target : ℤ) (id : ℕ) → id < 2 ^ 31 → Awaits target id → waits_for target id ≡ true
Awaits-waits_for (negsuc n) id h a = refl
Awaits-waits_for (pos zero) id h a = refl
Awaits-waits_for (pos (suc n)) id h (inl e) = absurd (omega (arith, e))
Awaits-waits_for (pos (suc n)) id h (inr e) =
    ap (same_int (pos (suc n))) (to_int_lem id h) ∙ ground (arith, e)

module _ (id : ℕ) (small : id < 2 ^ 31) (p : Thread) where
  waiting : Bool
  waiting = is_blocked p.state && waits_for p.wait_target id

  waiting-IsWaiting : waiting ≡ true → IsWaiting id p
  unfolding waiting
  waiting-IsWaiting e = elim (Bool-cases (is_blocked p.state)) [
    | inl b ↦ (
      is_blocked_lem p.state b,
      waits_for-Awaits p.wait_target id small
          (ap (λ x. x && waits_for p.wait_target id) (sym b) ∙ e),
    )
    | inr b ↦ absurd (true≢false (sym e ∙ ap (λ x. x && waits_for p.wait_target id) b))
  ]

  IsWaiting-waiting : IsWaiting id p → waiting ≡ true
  unfolding waiting
  IsWaiting-waiting (b, a) =
      ap (λ x. is_blocked x && waits_for p.wait_target id) b
      ∙ Awaits-waits_for p.wait_target id small a

notify_parent_lem :
    (root t p : ℕ) (s : Sched)
    → p ≢ t
    → (s.threads t).id < 2 ^ 31
    → let s' = notify_parent root p t s in
      Tells root
        (s.threads t).id
        (s.threads t).exit_code
        (s.threads p)
        (s'.threads p)
        s.stores
        s'.stores
      × ((k : ℕ) → k ≢ p → s'.threads k ≡ s.threads k)
unfolding notify_parent waiting
notify_parent_lem root t p s ne small =
    let tp : (t == p) ≡ false = ground arith in
    rw (==_refl p, tp)
      (elim (Bool-cases (waiting (s.threads t).id small (s.threads p))) [
        | inl w ↦ rw w (
          inl (
            waiting-IsWaiting (s.threads t).id small (s.threads p) w,
            rw (==_refl p) refl,
            stored (Bool-cases ((s.threads p).wait_status_ptr == 0)),
          ),
          λ k kp. ground arith,
        )
        | inr w ↦ rw w (
          inr (
            λ x. true≢false (sym (IsWaiting-waiting (s.threads t).id small (s.threads p) x) ∙ w),
            rw (==_refl p) refl,
            refl,
          ),
          λ k kp. ground arith,
        )
      ])
  where
    ptr : ℕ
    ptr = (s.threads p).wait_status_ptr

    entry : Store
    entry = record { root = root; addr = ptr; value = (s.threads t).exit_code }

    stored :
        (((ptr == 0) ≡ true) ⊎ ((ptr == 0) ≡ false))
        → let stores' = if ptr == 0 then s.stores else entry ∷ s.stores in
          ((ptr ≡ 0) × (stores' ≡ s.stores)) ⊎ ((ptr ≢ 0) × (stores' ≡ entry ∷ s.stores))
    stored (inl z) = rw z (inl (ground (arith, z), refl))
    stored (inr z) = rw z (inr (λ e. ground (arith, z, e), refl))

-- The end of a thread that is not its own parent and whose id is below 2^31: the thread becomes a zombie
-- with its exit code. Without a parent nothing else changes. Otherwise the parent has one child
-- less; if it is blocked in a wait for this child or for any (a target of 0 or less), it is
-- made ready and waits no longer, and the code is stored where it asked for it, if it did; if not,
-- nothing else of it changes and nothing is stored. No other thread changes.
pub mark_zombie_lem :
    (root t : ℕ) (code : ℤ) (s : Sched)
    → (s.threads t).parent ≢ some t
    → (s.threads t).id < 2 ^ 31
    → let s' = mark_zombie root t code s in
      (s'.threads t ≡ record (s.threads t) { exit_code = code; state = zombie })
      × Elsewhere root t code s (s.threads t).parent s'
unfolding mark_zombie
mark_zombie_lem root t code s other small = elim (Option-cases (s.threads t).parent) [
  | inl e ↦ subst Result (sym e) (at_t, ((λ k kt. elsewhere k kt), refl))
  | inr (p, e) ↦ subst Result (sym e) (with_parent p λ x. other (e ∙ ap some x))
]
  where
    dead : Sched
    dead = record s {
      threads = update s.threads t (record (s.threads t) { exit_code = code; state = zombie });
    }

    told : Option ℕ → Sched
    told o = elim o [ none ↦ dead | some p ↦ notify_parent root p t dead ]

    Result : Option ℕ → Type 0
    Result o =
        ((told o).threads t ≡ record (s.threads t) { exit_code = code; state = zombie })
        × Elsewhere root t code s o (told o)

    at_t : dead.threads t ≡ record (s.threads t) { exit_code = code; state = zombie }
    at_t = rw (==_refl t) refl

    elsewhere : (k : ℕ) → k ≢ t → dead.threads k ≡ s.threads k
    elsewhere k kt = ground arith

    with_parent : (p : ℕ) → p ≢ t → Result (some p)
    with_parent p ne =
        let id_t : (dead.threads t).id ≡ (s.threads t).id = ap (λ r. r.id) at_t in
        let (tells, others) = notify_parent_lem root t p dead ne (omega (arith, id_t, small)) in
        let s' = notify_parent root p t dead in
        (
          others t (λ e. ne (sym e)) ∙ at_t,
          (
            subst (λ r. Tells root r.id r.exit_code (s.threads p) (s'.threads p) s.stores s'.stores)
                at_t
                (subst
                  (λ q.
                    Tells root (dead.threads t).id (dead.threads t).exit_code q (s'.threads p)
                      s.stores s'.stores)
                  (elsewhere p ne) tells),
            λ k kt kp. others k kp ∙ elsewhere k kt,
          ),
        )
