-- ===== src/Gdb/Tests.antt =====
-- Runs of the debugger's stub, and the theorems at a concrete state.
use mathlib.Core.Bool.{true≢false}
use myos.Base.{
  ℕ, ◌%◌, ◌≡◌, refl, sym, ◌∙◌, subst, Bool, true, false, some, [], ◌∷◌, ◌++◌, ◌==◌, if◌then◌else◌,
  arith, inl, inr, Bool-cases, update,
}
use myos.Base.Text.{codes}
use myos.Gdb.{int_to_hex, checksum, send_packet, read_packet, write_memory, read_memory}
use myos.Gdb.Stub.{Breakpoint, Frame, Stub, int3}
use myos.Gdb.Session.{session}
use myos.Gdb.Packets.{read_packet-send_packet}
use myos.Gdb.Memory.{write_memory-read_memory}
use myos.Gdb.Breaks.{IsWf}
use myos.Gdb.Events.{adds, after, Done, after-IsWf}
use myos.Gdb.Rounds.{session-enough}

sent_text : send_packet (codes "OK") ≡ codes "$OK#9a"
unfolding send_packet checksum int_to_hex
sent_text = refl

read_packet-send_packet_example :
    read_packet (codes "++" ++ (send_packet (codes "m100,4") ++ codes "x"))
    ≡ some (codes "m100,4", b'+' ∷ [], codes "x")
read_packet-send_packet_example =
    read_packet-send_packet (codes "++") (codes "m100,4") (codes "x") refl refl (omega arith)

write_memory-read_memory_example :
    write_memory 0x2000 (read_memory 0x1000 4 (λ k. k % 256)) 4 (λ _. 7) 0x2002 ≡ 2
write_memory-read_memory_example =
    write_memory-read_memory 0x2000 0x1000 4 (λ k. k % 256) (λ _. 7) (omega arith) (omega arith)
      (λ k. omega arith) 0x2002

-- The program's memory, and a program that stopped at its breakpoint at 0x1000.
abbrev program : ℕ → ℕ
program k = k % 256

abbrev at_1000 : Breakpoint
at_1000 = record { addr = 0x1000; saved = 0; used = true }

abbrev vacant : Breakpoint
vacant = record { addr = 0; saved = 0; used = false }

abbrev stub : Stub
stub = record {
  enabled = true;
  active = false;
  saved_targets = 0;
  saved_serial = false;
  targets = 3;
  serial = true;
  breakpoints = λ i. if i == 0 then at_1000 else vacant;
  pending_reinsert = false;
  pending_addr = 0;
  auto_continue = false;
  mem = update program 0x1000 int3;
  sent = [];
}

abbrev frame : Frame
frame = record {
  r15 = 15;
  r14 = 14;
  r13 = 13;
  r12 = 12;
  r11 = 11;
  r10 = 10;
  r9 = 9;
  r8 = 8;
  rsi = 0;
  rdi = 0;
  rbp = 0;
  rdx = 0;
  rcx = 0;
  rbx = 0;
  rax = 1;
  int_no = 3;
  rip = 0x1001;
  cs = 0x23;
  rflags = 0x202;
  rsp = 0x8000;
  ss = 0x1b;
  rflags_addr = 0;
}

slot : (i : ℕ) → (stub.breakpoints i).used ≡ true → i ≡ 0
slot i h = elim (Bool-cases (i == 0)) [
  | inl e ↦ ground (arith, e)
  | inr e ↦ absurd (unused (i == 0) e h)
]
  where
    unused : (b : Bool) → b ≡ false → (if b then at_1000 else vacant).used ≡ true → ⊥
    unused true e h = true≢false e
    unused false e h = true≢false (sym h)

stub-IsWf : IsWf program stub
stub-IsWf = record {
  saved = λ i l h.
      subst (λ k. (stub.breakpoints k).saved ≡ program (stub.breakpoints k).addr) (sym (slot i h))
        refl;
  other = λ k out. elim (Bool-cases (k == 0x1000)) [
    | inl e ↦ absurd (out (0, omega arith, refl, ground (arith, e)))
    | inr e ↦ rw e refl
  ];
  unique = λ i j l l' h h' e. slot i h ∙ sym (slot j h');
  armed =
      λ i l h. inl (subst (λ k. stub.mem (stub.breakpoints k).addr ≡ int3) (sym (slot i h)) refl);
}

after-IsWf_example : IsWf program (after (adds 0x3000) stub) × Done (adds 0x3000) stub
after-IsWf_example = after-IsWf program (adds 0x3000) stub stub-IsWf refl

session-enough_example :
    session 100 (codes "$g#67$c#63") frame stub ≡ session 20 (codes "$g#67$c#63") frame stub
session-enough_example =
    session-enough 100 20 (codes "$g#67$c#63") frame stub (omega arith) (omega arith)
