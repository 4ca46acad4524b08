-- ===== src/Gdb/Session.antt =====
-- src/gdb.c: the dispatch of commands, and the loop of the session.
-- Each round of the loop takes input, so the input's length bounds the rounds.
use myos.Base.{
  ℕ, zero, suc, ◌+◌, ◌-◌, ◌*◌, ◌/◌, ◌%◌, ◌^◌, bit_or, Bool, true, false, not, ◌&&◌, ◌||◌, Option,
  none, some, List, [], ◌∷◌, ◌++◌, length, take, ◌==◌, if◌then◌else◌, update,
}
use myos.Base.Text.{codes, char_at, rest_of, same_text}
use myos.Gdb.{u64, read_packet, parse_hex}
use myos.Gdb.Stub.{
  Frame, Stub, send, find_breakpoint, restore_pending_breakpoint, encode_registers, enter_session,
  leave_session, number_then, read_command, write_command, break_command,
}

-- The part of a buffer that is a C string.
unfoldable pub c_string : List ℕ → List ℕ
c_string [] = []
c_string (c ∷ s) = if c == 0 then [] else c ∷ c_string s

abbrev pub query : List ℕ → Stub → Stub
query cmd g =
    if same_text (take 10 cmd) (codes "qSupported")
    then send (codes "PacketSize=400") g
    else send [] g

abbrev pub verbose : List ℕ → Stub → Stub
verbose cmd g = if same_text cmd (codes "vCont?") then send (codes "vCont;c;s") g else send [] g

-- `c` and `s`, with the address to go on at, if there is one.
abbrev pub go_on : List ℕ → Frame → Frame
go_on p f = elim (parse_hex p).0 [ none ↦ f | some addr ↦ record f { rip = addr } ]

-- The result has single_step where resume is set.
unfoldable pub handle_command : List ℕ → Frame → Stub → Option Bool × Frame × Stub
handle_command cmd f g =
    let c = char_at cmd in
    let p = rest_of cmd in
    if c == b'?'
    then (none, f, send (codes "S05") g)
    else if c == b'g'
    then (none, f, send (encode_registers f) g)
    else if c == b'm'
    then (none, f, read_command (number_then b',' p) g)
    else if c == b'M'
    then (none, f, write_command (number_then b',' p) g)
    else if (c == b'Z') || (c == b'z')
    then (none, f, break_command (c == b'Z') (number_then b',' p) g)
    else if c == b'H'
    then (none, f, send (codes "OK") g)
    else if c == b'q'
    then (none, f, query cmd g)
    else if c == b'v'
    then (none, f, verbose cmd g)
    else if c == b'D'
    then (some false, f, send (codes "OK") g)
    else if (c == b'c') || (c == b's')
    then (some (c == b's'), go_on p f, g)
    else (none, f, send [] g)

-- `rflags |= 1 << 8` and `rflags &= ~(1u << 8)`: the mask is 32 bits wide.
abbrev pub set_trap : Frame → Frame
set_trap f = record f { rflags = bit_or f.rflags 0x100 }

abbrev pub clear_trap : Frame → Frame
clear_trap f = record f { rflags = f.rflags % 2 ^ 32 - f.rflags / 0x100 % 2 * 0x100 }

-- The end of a session.
unfoldable pub resume : Bool → Frame → Stub → Frame × Stub
resume single_step f g =
    if g.pending_reinsert
    then (set_trap f, leave_session (record g { auto_continue = not single_step }))
    else if single_step
    then (set_trap f, leave_session g)
    else (clear_trap f, leave_session g)

abbrev pub acknowledge : List ℕ → Stub → Stub
acknowledge out g = record g { sent = g.sent ++ out }

-- The frame and the state to resume with, and the input left; none where the session waits for input.
abbrev pub Outcome : Type 0
Outcome = Option (Frame × Stub × List ℕ)

-- The end of a round, after a command: the next round, or the end of the session.
abbrev pub go_round :
    Option Bool × Frame × Stub → List ℕ → (List ℕ → Frame → Stub → Outcome) → Outcome
go_round (none, f, g) rest next = next rest f g
go_round (some single_step, f, g) rest next =
    let (f', g') = resume single_step f g in some (f', g', rest)

-- A round, with what was read; a length of 0 is answered by the stop reply.
abbrev pub round :
    Option (List ℕ × List ℕ × List ℕ) → Frame → Stub → (List ℕ → Frame → Stub → Outcome) → Outcome
round none f g next = none
round (some ([], out, rest)) f g next = next rest f (send (codes "S05") (acknowledge out g))
round (some (c ∷ cs, out, rest)) f g next =
    go_round (handle_command (c_string (c ∷ cs)) f (acknowledge out g)) rest next

-- The loop.
unfoldable pub session : ℕ → List ℕ → Frame → Stub → Outcome
session zero s f g = none
session (suc fuel) s f g = round (read_packet s) f g (session fuel)

-- A breakpoint that was hit is taken out until the program has gone past it.
abbrev pub hit_at : Option ℕ → Frame → Stub → Frame × Stub
hit_at none f g = (f, g)
hit_at (some i) f g =
    let addr = (f.rip + (u64 - 1)) % u64 in
    (
      record f { rip = addr },
      record g {
        mem = update g.mem addr (g.breakpoints i).saved;
        pending_reinsert = true;
        pending_addr = addr;
      },
    )

abbrev pub hit_breakpoint : Frame → Stub → Frame × Stub
hit_breakpoint f g =
    if f.int_no == 3
    then hit_at (find_breakpoint ((f.rip + (u64 - 1)) % u64) g.breakpoints) f g
    else (f, g)

abbrev pub stopped : List ℕ → Frame × Stub → Outcome
stopped s (f, g) = session (length s + 1) s f (send (codes "S05") (enter_session g))

abbrev pub handled : Outcome → Option (Bool × Frame × Stub × List ℕ)
handled none = none
handled (some (f, g, rest)) = some (true, f, g, rest)

-- Whether the exception is handled, with the frame, the state and the input left.
unfoldable pub handle_exception : List ℕ → Frame → Stub → Option (Bool × Frame × Stub × List ℕ)
handle_exception s f g =
    if not g.enabled
    then some (false, f, g, s)
    else if (f.int_no == 1) && g.auto_continue
    then some
        (true, clear_trap f, record (restore_pending_breakpoint g) { auto_continue = false }, s)
    else handled (stopped s (hit_breakpoint f g))
