-- ===== src/Gdb/Events.antt =====
-- Every change of the breakpoints keeps the program's memory.
use mathlib.Core.Bool.{true≢false}
use myos.Base.{
  ℕ, ◌+◌, ◌-◌, ◌%◌, ◌<◌, ◌≡◌, ◌≢◌, refl, sym, ◌∙◌, subst, Bool, true, false, not, Option, none,
  some, ◌==◌, if◌then◌else◌, arith, inl, inr, Bool-cases, ◌⊎◌,
}
use myos.Base.Search.{First, first_from-First}
use myos.Gdb.{u64}
use myos.Gdb.Stub.{
  Frame, Stub, max_breakpoints, int3, sits_at, find_breakpoint, find_unused, add_at, add_breakpoint,
  remove_at, remove_breakpoint, reinsert_at, restore_pending_breakpoint,
}
use myos.Gdb.Session.{hit_at, hit_breakpoint}
use myos.Gdb.Breaks.{IsAt, IsWf, sits_lem, nowhere, mem_at, mem_other, add_new, remove_old, touch}

-- What the session does with breakpoints: the commands, the hit of one, and the step past it.
pub data Event : Type 0 where
  adds : (addr : ℕ) → Event
  removes : (addr : ℕ) → Event
  hits : (f : Frame) → Event
  passes : Event

abbrev pub after : Event → Stub → Stub
after (adds addr) g = (add_breakpoint addr g).1
after (removes addr) g = (remove_breakpoint addr g).1
after (hits f) g = (hit_breakpoint f g).1
after passes g = restore_pending_breakpoint g

-- A breakpoint is hit only when the one before it has been passed.
abbrev pub IsAllowed : Event → Stub → Type 0
IsAllowed (hits f) g = g.pending_reinsert ≡ false
IsAllowed e g = Path Bool true true

-- Whether the address has a breakpoint then, for the commands.
abbrev pub Done : Event → Stub → Type 0
Done (adds addr) g =
    (((add_breakpoint addr g).0 ≡ true) × IsAt (after (adds addr) g) addr)
    ⊎ (((add_breakpoint addr g).0 ≡ false)
        × ((i : ℕ) → i < max_breakpoints → (g.breakpoints i).used ≡ true))
Done (removes addr) g = ¬ IsAt (after (removes addr) g) addr
Done e g = Path Bool true true

First-find :
    (a : ℕ) (g : Stub)
    → First (sits_at a g.breakpoints) 0 max_breakpoints (find_breakpoint a g.breakpoints)
First-find a g = first_from-First (sits_at a g.breakpoints) max_breakpoints 0 max_breakpoints refl

First-unused :
    (g : Stub)
    → First (λ i. not (g.breakpoints i).used) 0 max_breakpoints (find_unused g.breakpoints)
First-unused g =
    first_from-First (λ i. not (g.breakpoints i).used) max_breakpoints 0 max_breakpoints refl

hit_IsAt :
    (a i : ℕ) (g : Stub) → First (sits_at a g.breakpoints) 0 max_breakpoints (some i) → IsAt g a
hit_IsAt a i g (hit, _, high, _) =
    let (on, at) = sits_lem a g.breakpoints i hit in (i, high, on, at)

not-true : (b : Bool) → not b ≡ true → b ≡ false
not-true true e = sym e
not-true false e = refl

not-false : (b : Bool) → not b ≡ false → b ≡ true
not-false true e = refl
not-false false e = sym e

module _ (m : ℕ → ℕ) (g : Stub) (w : IsWf m g) where
  added :
      (a : ℕ) (o f : Option ℕ)
      → First (sits_at a g.breakpoints) 0 max_breakpoints o
      → First (λ i. not (g.breakpoints i).used) 0 max_breakpoints f
      → let q = add_at a o f g in
        IsWf m (q.1)
        × (((q.0 ≡ true) × IsAt (q.1) a)
            ⊎ ((q.0 ≡ false) × ((i : ℕ) → i < max_breakpoints → (g.breakpoints i).used ≡ true)))
  added a (some i) f hit free = (w, inl (refl, hit_IsAt a i g hit))
  added a none (some i) miss (unused, _, high, _) =
      let (w', at) = add_new m a g w i miss (not-true (g.breakpoints i).used unused) high in
      (w', inl (refl, at))
  added a none none miss full =
      (w, inr (refl, λ i h. not-false (g.breakpoints i).used (full i (omega arith) h)))

  removed :
      (a : ℕ) (o : Option ℕ)
      → First (sits_at a g.breakpoints) 0 max_breakpoints o
      → let q = remove_at a o g in IsWf m (q.1) × (¬ IsAt (q.1) a)
  removed a none miss = (w, nowhere a g miss)
  removed a (some i) hit = remove_old m a g w i hit

  passed :
      g.pending_reinsert ≡ true
      → (o : Option ℕ) → First (sits_at g.pending_addr g.breakpoints) 0 max_breakpoints o
      → IsWf m (record (reinsert_at o g) { pending_reinsert = false; pending_addr = 0 })
  passed p none miss = record {
    saved = w.saved;
    other = w.other;
    unique = w.unique;
    armed = λ j h on. elim (w.armed j h on) [
      | inl e ↦ inl e
      | inr (_, at) ↦ absurd (nowhere g.pending_addr g miss (j, h, on, sym at))
    ];
  }
  passed p (some i) (hit, _, high, _) =
      let (on, at) = sits_lem g.pending_addr g.breakpoints i hit in
      let a = (g.breakpoints i).addr in
      touch m a int3 false 0 g w (i, high, on, refl)
        (λ j h on'. elim (Bool-cases ((g.breakpoints j).addr == a)) [
          | inl e ↦ inl (mem_at g.mem a int3 (g.breakpoints j).addr (ground (arith, e)))
          | inr e ↦
              let ne : (g.breakpoints j).addr ≢ a = λ z. ground (arith, z, e) in
              elim (w.armed j h on') [
                | inl z ↦ inl (mem_other g.mem a int3 (g.breakpoints j).addr ne ∙ z)
                | inr (_, z) ↦ absurd (ne (sym z ∙ sym at))
              ]
        ])

  pub struck :
      (f : Frame)
      → g.pending_reinsert ≡ false
      → (o : Option ℕ)
      → First (sits_at ((f.rip + (u64 - 1)) % u64) g.breakpoints) 0 max_breakpoints o
      → IsWf m (hit_at o f g).1
  struck f p none miss = w
  struck f p (some i) hit =
      let a = (f.rip + (u64 - 1)) % u64 in
      touch m a (g.breakpoints i).saved true a g w (hit_IsAt a i g hit) (λ j h on.
        elim (Bool-cases ((g.breakpoints j).addr == a)) [
          | inl e ↦ inr (refl, ground (arith, e))
          | inr e ↦
              let ne : (g.breakpoints j).addr ≢ a = λ z. ground (arith, z, e) in
              elim (w.armed j h on) [
                | inl z ↦
                    inl (mem_other g.mem a (g.breakpoints i).saved (g.breakpoints j).addr ne ∙ z)
                | inr (z, _) ↦ absurd (true≢false (sym z ∙ p))
              ]
        ])

-- The program's memory is kept by every change of the breakpoints: by a command that adds or removes one,
-- by the hit of one while none is pending, and by the return of the pending one. An added breakpoint is
-- there, and only where all 32 entries are in use is one refused; a removed one is gone.
pub after-IsWf :
    (m : ℕ → ℕ) (e : Event) (g : Stub) → IsWf m g → IsAllowed e g → IsWf m (after e g) × Done e g
unfolding add_breakpoint remove_breakpoint restore_pending_breakpoint
after-IsWf m (adds a) g w ok = added m g w a _ _ (First-find a g) (First-unused g)
after-IsWf m (removes a) g w ok = removed m g w a _ (First-find a g)
after-IsWf m (hits f) g w ok = elim (Bool-cases (f.int_no == 3)) [
  | inl e ↦ rw (after, e) (struck m g w f ok _ (First-find ((f.rip + (u64 - 1)) % u64) g), refl)
  | inr e ↦ rw (after, e) (w, refl)
]
after-IsWf m passes g w ok =
    let o = find_breakpoint g.pending_addr g.breakpoints in
    let q = record (reinsert_at o g) { pending_reinsert = false; pending_addr = 0 } in
    elim (Bool-cases g.pending_reinsert) [
      | inl e ↦ (
        subst (λ b. IsWf m (if b then q else g)) (sym e)
            (passed m g w e o (First-find g.pending_addr g)),
        refl,
      )
      | inr e ↦ (subst (λ b. IsWf m (if b then q else g)) (sym e) w, refl)
    ]
