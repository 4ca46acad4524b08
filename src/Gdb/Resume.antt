-- ===== src/Gdb/Resume.antt =====
-- The end of a session by the command c, and what a session leaves of the breakpoints.
use myos.Base.{
  ℕ, suc, ◌+◌, ◌≡◌, refl, sym, ap, ◌∙◌, subst, Bool, true, false, some, List, [], ◌∷◌, ◌++◌, length,
  if◌then◌else◌, arith,
}
use myos.Base.Text.{codes, all}
use myos.Gdb.{send_packet, parse_hex, parse_digits}
use myos.Gdb.Stub.{Frame, Stub, send, enter_session, leave_session}
use myos.Gdb.Session.{
  c_string, handle_command, set_trap, clear_trap, resume, acknowledge, session, stopped,
}
use myos.Gdb.Packets.{is_noise, read_packet-send_packet}
use myos.Gdb.Breaks.{IsWf}

-- What a session leaves of the breakpoints.
pub record Same (g g' : Stub) : Type 0 where
  pub breakpoints : g'.breakpoints ≡ g.breakpoints
  pub mem : g'.mem ≡ g.mem
  pub pending_reinsert : g'.pending_reinsert ≡ g.pending_reinsert
  pub pending_addr : g'.pending_addr ≡ g.pending_addr
  pub enabled : g'.enabled ≡ g.enabled

enter_session-Same : (g : Stub) → Same g (enter_session g)
unfolding enter_session
enter_session-Same g = pick g.active
  where
    pick :
        (b : Bool)
        → Same g (
            if b then g else record g {
              active = true;
              saved_targets = g.targets;
              saved_serial = g.serial;
              targets = 1;
              serial = false;
            })
    pick true = record {
      breakpoints = refl;
      mem = refl;
      pending_reinsert = refl;
      pending_addr = refl;
      enabled = refl;
    }
    pick false = record {
      breakpoints = refl;
      mem = refl;
      pending_reinsert = refl;
      pending_addr = refl;
      enabled = refl;
    }

leave_session-Same :
    (g : Stub) → Same g (leave_session g) × ((leave_session g).auto_continue ≡ g.auto_continue)
unfolding leave_session
leave_session-Same g = pick g.active
  where
    pick :
        (b : Bool)
        → let g' =
            if b
            then record g { targets = g.saved_targets; serial = g.saved_serial; active = false }
            else g in
          Same g g' × (g'.auto_continue ≡ g.auto_continue)
    pick true = (
      record {
        breakpoints = refl;
        mem = refl;
        pending_reinsert = refl;
        pending_addr = refl;
        enabled = refl;
      },
      refl,
    )
    pick false = (
      record {
        breakpoints = refl;
        mem = refl;
        pending_reinsert = refl;
        pending_addr = refl;
        enabled = refl;
      },
      refl,
    )

Same-trans : (g g₁ g₂ : Stub) → Same g g₁ → Same g₁ g₂ → Same g g₂
Same-trans g g₁ g₂ a b = record {
  breakpoints = b.breakpoints ∙ a.breakpoints;
  mem = b.mem ∙ a.mem;
  pending_reinsert = b.pending_reinsert ∙ a.pending_reinsert;
  pending_addr = b.pending_addr ∙ a.pending_addr;
  enabled = b.enabled ∙ a.enabled;
}

pub Same-IsWf : (m : ℕ → ℕ) (g g' : Stub) → Same g g' → IsWf m g → IsWf m g'
Same-IsWf m g g' e w = again (
    fields g'.breakpoints g'.mem g'.pending_reinsert g'.pending_addr e.breakpoints e.mem
      e.pending_reinsert e.pending_addr)
  where
    fields :
        (b : ℕ → _) (me : ℕ → ℕ) (p : Bool) (pa : ℕ)
        → b ≡ g.breakpoints
        → me ≡ g.mem
        → p ≡ g.pending_reinsert
        → pa ≡ g.pending_addr
        → IsWf m (record g { breakpoints = b; mem = me; pending_reinsert = p; pending_addr = pa })
    fields b me p pa eb em ep ea =
        subst
          (λ z.
            IsWf m
              (record g { breakpoints = z; mem = me; pending_reinsert = p; pending_addr = pa }))
          (sym eb)
          (subst (λ z. IsWf m (record g { mem = z; pending_reinsert = p; pending_addr = pa }))
            (sym em)
            (subst (λ z. IsWf m (record g { pending_reinsert = z; pending_addr = pa })) (sym ep)
              (subst (λ z. IsWf m (record g { pending_addr = z })) (sym ea) w)))

    again :
        IsWf m (record g {
          breakpoints = g'.breakpoints;
          mem = g'.mem;
          pending_reinsert = g'.pending_reinsert;
          pending_addr = g'.pending_addr;
        })
        → IsWf m g'
    again w' = record { saved = w'.saved; other = w'.other; unique = w'.unique; armed = w'.armed }

-- The input that goes on: noise, the command c, and more.
abbrev pub go_on_input : List ℕ → List ℕ → List ℕ
go_on_input noise rest = noise ++ (send_packet (codes "c") ++ rest)

resume_pending :
    (f : Frame) (g : Stub)
    → g.pending_reinsert ≡ true
    → resume false f g ≡ (set_trap f, leave_session (record g { auto_continue = true }))
unfolding resume
resume_pending f g e =
    ap
      (λ b.
        if b
        then (set_trap f, leave_session (record g { auto_continue = true }))
        else (clear_trap f, leave_session g))
      e

command_c : (f : Frame) (g : Stub) → handle_command (c_string (codes "c")) f g ≡ (some false, f, g)
unfolding handle_command c_string parse_hex parse_digits
command_c f g = refl

session-c :
    (n : ℕ) (noise rest : List ℕ) (f : Frame) (g : Stub)
    → all is_noise noise ≡ true
    → g.pending_reinsert ≡ true
    → session (suc n) (go_on_input noise rest) f g
      ≡ some (
        set_trap f,
        leave_session (record (acknowledge (b'+' ∷ []) g) { auto_continue = true }),
        rest,
      )
unfolding session
session-c n noise rest f g ok p =
    rw (read_packet-send_packet noise (codes "c") rest ok refl (omega arith)) (
      rw (command_c f (acknowledge (b'+' ∷ []) g))
        (rw (resume_pending f (acknowledge (b'+' ∷ []) g) p) refl))

pub stopped-c :
    (noise rest : List ℕ) (f : Frame) (g : Stub)
    → all is_noise noise ≡ true
    → g.pending_reinsert ≡ true
    → (g' : Stub) × (stopped (go_on_input noise rest) (f, g) ≡ some (set_trap f, g', rest))
      × Same g g'
      × (g'.auto_continue ≡ true)
stopped-c noise rest f g ok p =
    let s = go_on_input noise rest in
    let g₁ = send (codes "S05") (enter_session g) in
    let g₂ = record (acknowledge (b'+' ∷ []) g₁) { auto_continue = true } in
    let a = enter_session-Same g in
    let (b, auto) = leave_session-Same g₂ in
    let first : Same g g₂ = record {
      breakpoints = a.breakpoints;
      mem = a.mem;
      pending_reinsert = a.pending_reinsert;
      pending_addr = a.pending_addr;
      enabled = a.enabled;
    } in
    let rounds : length s + 1 ≡ suc (length s) = omega arith in
    (
      leave_session g₂,
      ap (λ n. session n s f g₁) rounds
          ∙ session-c (length s) noise rest f g₁ ok (a.pending_reinsert ∙ p),
      Same-trans g g₂ (leave_session g₂) first b,
      auto,
    )
