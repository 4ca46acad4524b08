-- ===== src/Gdb/Stub.antt =====
-- src/gdb.c: breakpoints, commands, and the session that an exception opens.
-- The frame of the interrupted program is a record of its registers with the address of its field
-- rflags, which stands for the stack pointer of kernel code. Memory is a function from addresses.
use myos.Base.{
  ℕ, ◌*◌, ◌/◌, ◌%◌, ◌^◌, Bool, true, false, not, ◌&&◌, Option, none, some, List, [], ◌++◌, length,
  ltb, ◌==◌, if◌then◌else◌, update,
}
use myos.Base.Search.{first_from}
use myos.Base.Text.{codes, char_at, rest_of}
use myos.Gdb.{max_packet, u64, send_packet, append_reg, parse_hex, write_memory, read_memory}

abbrev pub max_breakpoints : ℕ
max_breakpoints = 32

pub record Breakpoint : Type 0 where
  pub addr : ℕ
  pub saved : ℕ
  pub used : Bool

pub record Frame : Type 0 where
  pub r15 : ℕ
  pub r14 : ℕ
  pub r13 : ℕ
  pub r12 : ℕ
  pub r11 : ℕ
  pub r10 : ℕ
  pub r9 : ℕ
  pub r8 : ℕ
  pub rsi : ℕ
  pub rdi : ℕ
  pub rbp : ℕ
  pub rdx : ℕ
  pub rcx : ℕ
  pub rbx : ℕ
  pub rax : ℕ
  pub int_no : ℕ
  pub rip : ℕ
  pub cs : ℕ
  pub rflags : ℕ
  pub rsp : ℕ
  pub ss : ℕ
  pub rflags_addr : ℕ

-- The targets and the serial flag are those of the log and of the console.
pub record Stub : Type 0 where
  pub enabled : Bool
  pub active : Bool
  pub saved_targets : ℕ
  pub saved_serial : Bool
  pub targets : ℕ
  pub serial : Bool
  pub breakpoints : ℕ → Breakpoint
  pub pending_reinsert : Bool
  pub pending_addr : ℕ
  pub auto_continue : Bool
  pub mem : ℕ → ℕ
  pub sent : List ℕ

unfoldable pub init : Stub → Stub
init g = record g { enabled = true }

abbrev pub send : List ℕ → Stub → Stub
send text g = record g { sent = g.sent ++ send_packet text }

abbrev pub int3 : ℕ
int3 = 0xcc

abbrev pub sits_at : ℕ → (ℕ → Breakpoint) → ℕ → Bool
sits_at addr bps i = (bps i).used && (bps i).addr == addr

abbrev pub find_breakpoint : ℕ → (ℕ → Breakpoint) → Option ℕ
find_breakpoint addr bps = first_from (sits_at addr bps) max_breakpoints 0

abbrev pub find_unused : (ℕ → Breakpoint) → Option ℕ
find_unused bps = first_from (λ i. not (bps i).used) max_breakpoints 0

abbrev pub add_at : ℕ → Option ℕ → Option ℕ → Stub → Bool × Stub
add_at addr (some i) free g = (true, g)
add_at addr none (some i) g = (
  true,
  record g {
    breakpoints = update g.breakpoints i (record { addr = addr; saved = g.mem addr; used = true });
    mem = update g.mem addr int3;
  },
)
add_at addr none none g = (false, g)

unfoldable pub add_breakpoint : ℕ → Stub → Bool × Stub
add_breakpoint addr g =
    add_at addr (find_breakpoint addr g.breakpoints) (find_unused g.breakpoints) g

abbrev pub remove_at : ℕ → Option ℕ → Stub → Bool × Stub
remove_at addr none g = (false, g)
remove_at addr (some i) g = (
  true,
  record g {
    breakpoints = update g.breakpoints i (record (g.breakpoints i) { used = false });
    mem = update g.mem addr (g.breakpoints i).saved;
  },
)

unfoldable pub remove_breakpoint : ℕ → Stub → Bool × Stub
remove_breakpoint addr g = remove_at addr (find_breakpoint addr g.breakpoints) g

abbrev pub reinsert_at : Option ℕ → Stub → Stub
reinsert_at none g = g
reinsert_at (some i) g = record g { mem = update g.mem (g.breakpoints i).addr int3 }

unfoldable pub restore_pending_breakpoint : Stub → Stub
restore_pending_breakpoint g =
    if g.pending_reinsert
    then record (reinsert_at (find_breakpoint g.pending_addr g.breakpoints) g) {
      pending_reinsert = false;
      pending_addr = 0;
    }
    else g

-- `(frame->cs & 3) == 3`
abbrev pub from_user : Frame → Bool
from_user f = f.cs % 4 == 3

unfoldable pub encode_registers : Frame → List ℕ
encode_registers f = append_reg f.rax 8 (
    append_reg f.rbx 8 (
      append_reg f.rcx 8 (
        append_reg f.rdx 8 (
          append_reg f.rsi 8 (
            append_reg f.rdi 8 (
              append_reg f.rbp 8 (
                append_reg (if from_user f then f.rsp else f.rflags_addr) 8 (
                  append_reg f.r8 8 (
                    append_reg f.r9 8 (
                      append_reg f.r10 8 (
                        append_reg f.r11 8 (
                          append_reg f.r12 8 (
                            append_reg f.r13 8 (
                              append_reg f.r14 8 (
                                append_reg f.r15 8 (
                                  append_reg f.rip 8 (
                                    append_reg (f.rflags % 2 ^ 32) 4 (
                                      append_reg (f.cs % 2 ^ 16) 4 (
                                        append_reg (if from_user f then f.ss % 2 ^ 16 else 0x10) 4 (
                                          append_reg 0 4 (
                                            append_reg 0 4 (
                                              append_reg 0 4
                                                (append_reg 0 4 [])))))))))))))))))))))))

unfoldable pub enter_session : Stub → Stub
enter_session g = if g.active then g else record g {
  active = true;
  saved_targets = g.targets;
  saved_serial = g.serial;
  targets = 1;
  serial = false;
}

unfoldable pub leave_session : Stub → Stub
leave_session g =
    if g.active
    then record g { targets = g.saved_targets; serial = g.saved_serial; active = false }
    else g

-- A number that a character follows, and what follows both.
abbrev pub number_then : ℕ → List ℕ → Option (ℕ × List ℕ)
number_then sep p = elim (parse_hex p).0 [
  | none ↦ none
  | some n ↦ if char_at (parse_hex p).1 == sep then some (n, rest_of (parse_hex p).1) else none
]

abbrev pub read_command : Option (ℕ × List ℕ) → Stub → Stub
read_command none g = send (codes "E01") g
read_command (some (addr, p)) g = elim (parse_hex p).0 [
  | none ↦ send (codes "E01") g
  | some len ↦
      if ltb (max_packet / 2) len then send (codes "E02") g else send (read_memory addr len g.mem) g
]

abbrev pub write_text : ℕ → Option (ℕ × List ℕ) → Stub → Stub
write_text addr none g = send (codes "E01") g
write_text addr (some (len, p)) g =
    if ltb (length p) (len * 2 % u64)
    then send (codes "E02") g
    else send (codes "OK") (record g { mem = write_memory addr p len g.mem })

abbrev pub write_command : Option (ℕ × List ℕ) → Stub → Stub
write_command none g = send (codes "E01") g
write_command (some (addr, p)) g = write_text addr (number_then b':' p) g

abbrev pub answer_done : Bool × Stub → Stub
answer_done (done, g) = send (if done then codes "OK" else codes "E03") g

abbrev pub break_command : Bool → Option (ℕ × List ℕ) → Stub → Stub
break_command insert none g = send (codes "E01") g
break_command insert (some (type, p)) g = elim (parse_hex p).0 [
  | none ↦ send (codes "E01") g
  | some addr ↦
      if type == 0
      then answer_done (if insert then add_breakpoint addr g else remove_breakpoint addr g)
      else send [] g
]
