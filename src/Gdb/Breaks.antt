-- ===== src/Gdb/Breaks.antt =====
-- Breakpoints against the memory of the program without them.
use mathlib.Core.Bool.{true≢false}
use myos.Base.{
  ℕ, ◌<◌, ◌≡◌, ◌≢◌, refl, sym, ap, ◌∙◌, subst, Bool, true, false, ◌&&◌, none, some, ◌==◌, arith,
  inl, inr, Bool-cases, update, ◌⊎◌,
}
use myos.Base.Search.{First}
use myos.Gdb.Stub.{Breakpoint, Stub, max_breakpoints, int3, sits_at, add_at, remove_at}

-- A breakpoint in use at an address.
abbrev pub IsAt : Stub → ℕ → Type 0
IsAt g k =
    (i : ℕ) × (i < max_breakpoints) × ((g.breakpoints i).used ≡ true) × ((g.breakpoints i).addr ≡ k)

-- m is the memory of the program: it differs from memory at the breakpoints alone, which keep the
-- byte of m; an address has one breakpoint, and memory has the instruction int3 there but for the
-- breakpoint that the program has still to go past.
pub record IsWf (m : ℕ → ℕ) (g : Stub) : Type 0 where
  pub saved :
      (i : ℕ)
      → i < max_breakpoints
      → (g.breakpoints i).used ≡ true
      → (g.breakpoints i).saved ≡ m (g.breakpoints i).addr
  pub other : (k : ℕ) → ¬ IsAt g k → g.mem k ≡ m k
  pub unique :
      (i j : ℕ)
      → i < max_breakpoints
      → j < max_breakpoints
      → (g.breakpoints i).used ≡ true
      → (g.breakpoints j).used ≡ true
      → (g.breakpoints i).addr ≡ (g.breakpoints j).addr
      → i ≡ j
  pub armed :
      (i : ℕ)
      → i < max_breakpoints
      → (g.breakpoints i).used ≡ true
      → (g.mem (g.breakpoints i).addr ≡ int3)
        ⊎ ((g.pending_reinsert ≡ true) × (g.pending_addr ≡ (g.breakpoints i).addr))

pub sits_lem :
    (a : ℕ) (bps : ℕ → Breakpoint) (i : ℕ)
    → sits_at a bps i ≡ true
    → ((bps i).used ≡ true) × ((bps i).addr ≡ a)
sits_lem a bps i h =
    (used (bps i).used ((bps i).addr == a) h, ==→≡ (both (bps i).used ((bps i).addr == a) h))
  where
    used : (x y : Bool) → (x && y) ≡ true → x ≡ true
    used true y e = refl
    used false y e = e

    both : (x y : Bool) → (x && y) ≡ true → y ≡ true
    both true y e = e
    both false y e = absurd (true≢false (sym e))

    ==→≡ : ((bps i).addr == a) ≡ true → (bps i).addr ≡ a
    ==→≡ e = ground (arith, e)

pub nowhere :
    (a : ℕ) (g : Stub) → First (sits_at a g.breakpoints) 0 max_breakpoints none → ¬ IsAt g a
nowhere a g miss (i, h, used, at) = true≢false (sym here ∙ miss i (omega arith) h)
  where
    here : sits_at a g.breakpoints i ≡ true
    here =
        let self : ((g.breakpoints i).addr == a) ≡ true = ground (arith, at) in rw (used, self) refl

-- Of an entry after an update at i.
entry_at :
    (bps : ℕ → Breakpoint) (i : ℕ) (b : Breakpoint) (j : ℕ)
    → ((j ≡ i) × (update bps i b j ≡ b)) ⊎ ((j ≢ i) × (update bps i b j ≡ bps j))
entry_at bps i b j = elim (Bool-cases (j == i)) [
  | inl e ↦ inl (ground (arith, e), rw e refl)
  | inr e ↦ inr (λ z. ground (arith, z, e), rw e refl)
]

pub mem_at : (mem : ℕ → ℕ) (a x k : ℕ) → k ≡ a → update mem a x k ≡ x
mem_at mem a x k e = let self : (k == a) ≡ true = ground (arith, e) in rw self refl

pub mem_other : (mem : ℕ → ℕ) (a x k : ℕ) → k ≢ a → update mem a x k ≡ mem k
mem_other mem a x k ne = let other : (k == a) ≡ false = ground (arith, ne) in rw other refl

module _ (m : ℕ → ℕ) (a : ℕ) (g : Stub) (w : IsWf m g) where
  -- A new breakpoint in an unused entry.
  pub add_new :
      (i : ℕ)
      → First (sits_at a g.breakpoints) 0 max_breakpoints none
      → (g.breakpoints i).used ≡ false
      → i < max_breakpoints
      → let g' = (add_at a none (some i) g).1 in IsWf m g' × IsAt g' a
  add_new i miss unused high =
      (record { saved = saved; other = other; unique = unique; armed = armed }, here)
    where
      g' : Stub
      g' = (add_at a none (some i) g).1

      b : Breakpoint
      b = record { addr = a; saved = g.mem a; used = true }

      here : IsAt g' a
      here = let self : (i == i) ≡ true = ground arith in (i, high, rw self refl, rw self refl)

      -- An entry in use is the new one, or an old one at another address.
      cases :
          (j : ℕ)
          → j < max_breakpoints
          → (g'.breakpoints j).used ≡ true
          → ((j ≡ i) × (g'.breakpoints j ≡ b))
            ⊎ ((g'.breakpoints j ≡ g.breakpoints j)
                × ((g.breakpoints j).used ≡ true)
                × ((g.breakpoints j).addr ≢ a))
      cases j h on = elim (entry_at g.breakpoints i b j) [
        | inl (e, at) ↦ inl (e, at)
        | inr (ne, same) ↦
            let on' : (g.breakpoints j).used ≡ true = sym (ap (λ z. z.used) same) ∙ on in
            inr (same, on', λ e. nowhere a g miss (j, h, on', e))
      ]

      saved :
          (j : ℕ)
          → j < max_breakpoints
          → (g'.breakpoints j).used ≡ true
          → (g'.breakpoints j).saved ≡ m (g'.breakpoints j).addr
      saved j h on = elim (cases j h on) [
        | inl (e, at) ↦
            ap (λ z. z.saved) at ∙ (w.other a (nowhere a g miss) ∙ sym (ap (λ z. m z.addr) at))
        | inr (same, on', _) ↦
            ap (λ z. z.saved) same ∙ (w.saved j h on' ∙ sym (ap (λ z. m z.addr) same))
      ]

      other : (k : ℕ) → ¬ IsAt g' k → g'.mem k ≡ m k
      other k out =
          mem_other g.mem a int3 k (λ e. out (subst (IsAt g') (sym e) here))
          ∙ w.other k (λ (j, h, on, at). elim (entry_at g.breakpoints i b j) [
            | inl (e, _) ↦ true≢false (sym on ∙ (ap (λ z. (g.breakpoints z).used) e ∙ unused))
            | inr (_, same) ↦ out (j, h, ap (λ z. z.used) same ∙ on, ap (λ z. z.addr) same ∙ at)
          ])

      unique :
          (j k : ℕ)
          → j < max_breakpoints
          → k < max_breakpoints
          → (g'.breakpoints j).used ≡ true
          → (g'.breakpoints k).used ≡ true
          → (g'.breakpoints j).addr ≡ (g'.breakpoints k).addr
          → j ≡ k
      unique j k hj hk x y e = elim (cases j hj x) [
        | inl (ej, at) ↦ elim (cases k hk y) [
          | inl (ek, _) ↦ ej ∙ sym ek
          | inr (same, _, ne) ↦
              absurd (ne (sym (ap (λ z. z.addr) same) ∙ (sym e ∙ ap (λ z. z.addr) at)))
        ]
        | inr (same, x', ne) ↦ elim (cases k hk y) [
          | inl (_, at) ↦ absurd (ne (sym (ap (λ z. z.addr) same) ∙ (e ∙ ap (λ z. z.addr) at)))
          | inr (same', y', _) ↦
              w.unique j k hj hk x' y' (sym (ap (λ z. z.addr) same) ∙ (e ∙ ap (λ z. z.addr) same'))
        ]
      ]

      armed :
          (j : ℕ)
          → j < max_breakpoints
          → (g'.breakpoints j).used ≡ true
          → (g'.mem (g'.breakpoints j).addr ≡ int3)
            ⊎ ((g'.pending_reinsert ≡ true) × (g'.pending_addr ≡ (g'.breakpoints j).addr))
      armed j h on = elim (cases j h on) [
        | inl (e, at) ↦ inl (mem_at g.mem a int3 (g'.breakpoints j).addr (ap (λ z. z.addr) at))
        | inr (same, on', ne) ↦ elim (w.armed j h on') [
          | inl e ↦ inl (
              ap (λ z. g'.mem z.addr) same ∙ (mem_other g.mem a int3 (g.breakpoints j).addr ne ∙ e))
          | inr (p, at) ↦ inr (p, at ∙ sym (ap (λ z. z.addr) same))
        ]
      ]

  -- A breakpoint taken out of its entry.
  pub remove_old :
      (i : ℕ)
      → First (sits_at a g.breakpoints) 0 max_breakpoints (some i)
      → let g' = (remove_at a (some i) g).1 in IsWf m g' × (¬ IsAt g' a)
  remove_old i (hit, _, high, _) =
      (record { saved = saved; other = other; unique = unique; armed = armed }, gone)
    where
      g' : Stub
      g' = (remove_at a (some i) g).1

      old : ((g.breakpoints i).used ≡ true) × ((g.breakpoints i).addr ≡ a)
      old = sits_lem a g.breakpoints i hit

      cases :
          (j : ℕ)
          → j < max_breakpoints
          → (g'.breakpoints j).used ≡ true
          → (g'.breakpoints j ≡ g.breakpoints j)
            × ((g.breakpoints j).used ≡ true)
            × ((g.breakpoints j).addr ≢ a)
      cases j h on = elim (entry_at g.breakpoints i (record (g.breakpoints i) { used = false }) j) [
        | inl (_, at) ↦ absurd (true≢false (sym on ∙ ap (λ z. z.used) at))
        | inr (ne, same) ↦
            let on' : (g.breakpoints j).used ≡ true = sym (ap (λ z. z.used) same) ∙ on in
            (same, on', λ e. ne (w.unique j i h high on' (old.0) (e ∙ sym (old.1))))
      ]

      gone : ¬ IsAt g' a
      gone (j, h, on, at) =
          let (same, _, ne) = cases j h on in ne (sym (ap (λ z. z.addr) same) ∙ at)

      saved :
          (j : ℕ)
          → j < max_breakpoints
          → (g'.breakpoints j).used ≡ true
          → (g'.breakpoints j).saved ≡ m (g'.breakpoints j).addr
      saved j h on =
          let (same, on', _) = cases j h on in
          ap (λ z. z.saved) same ∙ (w.saved j h on' ∙ sym (ap (λ z. m z.addr) same))

      other : (k : ℕ) → ¬ IsAt g' k → g'.mem k ≡ m k
      other k out = elim (Bool-cases (k == a)) [
        | inl e ↦
            let here : k ≡ a = ground (arith, e) in
            mem_at g.mem a (g.breakpoints i).saved k here
            ∙ (w.saved i high (old.0) ∙ ap m (old.1 ∙ sym here))
        | inr e ↦
            let ne : k ≢ a = λ z. ground (arith, z, e) in
            mem_other g.mem a (g.breakpoints i).saved k ne
            ∙ w.other k (λ (j, h, on, at).
              elim (entry_at g.breakpoints i (record (g.breakpoints i) { used = false }) j) [
                | inl (here, _) ↦ ne (sym at ∙ (ap (λ z. (g.breakpoints z).addr) here ∙ old.1))
                | inr (_, same) ↦ out (j, h, ap (λ z. z.used) same ∙ on, ap (λ z. z.addr) same ∙ at)
              ])
      ]

      unique :
          (j k : ℕ)
          → j < max_breakpoints
          → k < max_breakpoints
          → (g'.breakpoints j).used ≡ true
          → (g'.breakpoints k).used ≡ true
          → (g'.breakpoints j).addr ≡ (g'.breakpoints k).addr
          → j ≡ k
      unique j k hj hk x y e =
          let (same, x', _) = cases j hj x in
          let (same', y', _) = cases k hk y in
          w.unique j k hj hk x' y' (sym (ap (λ z. z.addr) same) ∙ (e ∙ ap (λ z. z.addr) same'))

      armed :
          (j : ℕ)
          → j < max_breakpoints
          → (g'.breakpoints j).used ≡ true
          → (g'.mem (g'.breakpoints j).addr ≡ int3)
            ⊎ ((g'.pending_reinsert ≡ true) × (g'.pending_addr ≡ (g'.breakpoints j).addr))
      armed j h on =
          let (same, on', ne) = cases j h on in
          elim (w.armed j h on') [
            | inl e ↦ inl (
                ap (λ z. g'.mem z.addr) same
                ∙ (mem_other g.mem a (g.breakpoints i).saved (g.breakpoints j).addr ne ∙ e))
            | inr (p, at) ↦ inr (p, at ∙ sym (ap (λ z. z.addr) same))
          ]

-- Only the byte at a breakpoint's address changes, and what is pending.
module _ (m : ℕ → ℕ) (a x : ℕ) (p : Bool) (pa : ℕ) (g : Stub) (w : IsWf m g) (here : IsAt g a) where
  pub touch :
      ((j : ℕ)
        → j < max_breakpoints
        → (g.breakpoints j).used ≡ true
        → (update g.mem a x (g.breakpoints j).addr ≡ int3)
          ⊎ ((p ≡ true) × (pa ≡ (g.breakpoints j).addr)))
      → IsWf m (record g { mem = update g.mem a x; pending_reinsert = p; pending_addr = pa })
  touch armed = record {
    saved = w.saved;
    other = λ k out. mem_other g.mem a x k (λ e. out (subst (IsAt g) (sym e) here)) ∙ w.other k out;
    unique = w.unique;
    armed = armed;
  }
