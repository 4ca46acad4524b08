-- ===== src/Gdb/Step.antt =====
-- Going on from a breakpoint: it is taken out for one instruction and comes back.
use myos.Base.{ℕ, ◌≡◌, true, false, some, List}
use myos.Gdb.Stub.{Frame, Stub, int3}
use myos.Gdb.Session.{clear_trap, handle_exception}
use myos.Gdb.Breaks.{IsWf}

-- Going on past the breakpoint at a, from what is left of a session that was opened there.
abbrev pub GoesOn : (ℕ → ℕ) → ℕ → Stub → Type 0
GoesOn m a g =
    (g.mem a ≡ m a)
    × IsWf m g
    × ((s : List ℕ) (f : Frame)
        → f.int_no ≡ 1
        → (g' : Stub) × (handle_exception s f g ≡ some (true, clear_trap f, g', s))
          × (g'.mem a ≡ int3)
          × (g'.pending_reinsert ≡ false)
          × IsWf m g')
