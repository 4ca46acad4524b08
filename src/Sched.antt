-- ===== src/Sched.antt =====
-- src/scheduler.c: the thread table and the switching of threads. A thread pointer is an index of
-- the table (none for null); the thread that each CPU runs is a function of the CPU. The tick count
-- of the timer and a saved frame's address are arguments. Threads' names, user stacks, heaps and
-- open files are left out, with the operations that need them (creation, fork, waitpid). The lock
-- makes each operation one step.

pub mod Pick
pub mod Wake
pub mod Invariant
pub mod Switch
pub mod Steps
pub mod Exit
mod Tests
use myos.Base.{
  ℕ, zero, suc, ◌+◌, ◌-◌, ◌<◌, ◌%◌, Bool, true, false, not, ◌&&◌, ◌||◌, Option, none, some, List,
  [], ◌∷◌, ltb, leb, ◌==◌, if◌then◌else◌, update,
}
use myos.Base.Bits.{pow2}
use myos.Base.Int.{ℤ, pos, negsuc, minus_one}

abbrev pub max_threads : ℕ
max_threads = 64

pub data State : Type 0 where
  unused ready running sleeping blocked zombie : State

-- The priority is never negative: the code assigns 1 or another thread's.
pub record Thread : Type 0 where
  pub id : ℕ
  pub state : State
  pub is_user : Bool
  pub priority : ℕ
  pub parent : Option ℕ
  pub children : ℕ
  pub exit_code : ℤ
  pub wait_target : ℤ
  pub wait_status_ptr : ℕ
  pub rsp : ℕ
  pub cr3 : ℕ
  pub kstack : ℕ
  pub kstack_size : ℕ
  pub wakeup_tick : ℕ
  pub cpu_id : ℕ

-- An int stored through a pointer of user space: the address space in force, the address, the value.
pub record Store : Type 0 where
  pub root : ℕ
  pub addr : ℕ
  pub value : ℤ

-- `rsp0` and `root` are the stack of the task state segment and the CR3 register of each CPU;
-- `stores` are the stores to user space, the latest first.
pub record Sched : Type 0 where
  pub threads : ℕ → Thread
  pub current : ℕ → Option ℕ
  pub rsp0 : ℕ → ℕ
  pub root : ℕ → ℕ
  pub stores : List Store

-- Returning to a saved frame, halting for ever, or dereferencing a null thread.
pub data Outcome : Type 0 where
  resume : ℕ → Sched → Outcome
  halt : Outcome
  fault : Outcome

abbrev pub is_unused : State → Bool
is_unused unused = true
is_unused _ = false

abbrev pub is_ready : State → Bool
is_ready ready = true
is_ready _ = false

abbrev pub is_running : State → Bool
is_running running = true
is_running _ = false

abbrev pub is_sleeping : State → Bool
is_sleeping sleeping = true
is_sleeping _ = false

abbrev pub is_blocked : State → Bool
is_blocked blocked = true
is_blocked _ = false

abbrev pub is_zombie : State → Bool
is_zombie zombie = true
is_zombie _ = false

-- The cast from uint64_t to int.
unfoldable pub to_int : ℕ → ℤ
to_int n = let w = n % 0x100000000 in if ltb w 0x80000000 then pos w else negsuc (0xFFFFFFFF - w)

unfoldable pub negate : ℤ → ℤ
negate (pos zero) = pos 0
negate (pos (suc n)) = negsuc n
negate (negsuc n) = pos (suc n)

abbrev pub same_int : ℤ → ℤ → Bool
same_int (pos a) (pos b) = a == b
same_int (negsuc a) (negsuc b) = a == b
same_int _ _ = false

-- Whether a parent that waits for `target` waits for the thread with this id: for any child when
-- the target is not positive.
abbrev pub waits_for : ℤ → ℕ → Bool
waits_for (pos zero) id = true
waits_for (negsuc n) id = true
waits_for target id = same_int target (to_int id)

abbrev pub is_some_of : ℕ → Option ℕ → Bool
is_some_of i none = false
is_some_of i (some j) = i == j

-- `pick_next`: the threads that its loop looks at.
abbrev pub candidate : ℕ → Thread → Bool
candidate cpu t = is_ready t.state && (t.cpu_id == cpu)

abbrev pub better : (ℕ → Thread) → Option ℕ → Thread → Bool
better g none t = true
better g (some b) t = ltb (g b).priority t.priority

-- The loop of `pick_next` over n threads from i on.
unfoldable pub best_from : ℕ → (ℕ → Thread) → ℕ → ℕ → Option ℕ → Option ℕ
best_from cpu g zero i best = best
best_from cpu g (suc n) i best =
    best_from cpu g n (i + 1) (if candidate cpu (g i) && better g best (g i) then some i else best)

unfoldable pub pick_current : (ℕ → Thread) → Option ℕ → ℕ
pick_current g none = 0
pick_current g (some c) = if is_running (g c).state || is_ready (g c).state then c else 0

unfoldable pub pick_next : ℕ → Sched → ℕ
pick_next cpu s = elim (best_from cpu s.threads max_threads 0 none) [
  | some i ↦ i
  | none ↦ pick_current s.threads (s.current cpu)
]

abbrev pub woken : ℕ → Thread → Bool
woken now t = is_sleeping t.state && leb t.wakeup_tick now

abbrev pub awake : ℕ → Thread → Thread
awake now t = if woken now t then record t { state = ready } else t

unfoldable pub wake_from : ℕ → ℕ → ℕ → (ℕ → Thread) → ℕ → Thread
wake_from now zero i g = g
wake_from now (suc n) i g = wake_from now n (i + 1) (update g i (awake now (g i)))

unfoldable pub wake_sleepers : ℕ → Sched → Sched
wake_sleepers now s = record s { threads = wake_from now max_threads 0 s.threads }

-- The state and the saved stack pointer of the thread that is switched away from.
abbrev pub leave : ℕ → Thread → Thread
leave frame t = record t { rsp = frame; state = if is_running t.state then ready else t.state }

unfoldable pub switch : ℕ → ℕ → ℕ → ℕ → Sched → Outcome
switch cpu frame prev next s =
    let g = update s.threads prev (leave frame (s.threads prev)) in
    let t = record (g next) { state = running } in
    resume t.rsp (record s {
      threads = update g next t;
      current = update s.current cpu (some next);
      rsp0 =
          if t.kstack == 0
          then s.rsp0
          else update s.rsp0 cpu ((t.kstack + t.kstack_size) % pow2 64);
      root =
          if not (t.cr3 == 0) && not (t.cr3 == (s.threads prev).cr3)
          then update s.root cpu t.cr3
          else s.root;
    })

unfoldable pub do_switch : ℕ → ℕ → ℕ → Sched → Outcome
do_switch cpu frame next s = elim (s.current cpu) [
  | none ↦ fault
  | some prev ↦ if next == prev then resume frame s else switch cpu frame prev next s
]

-- `scheduler_on_tick` and `scheduler_yield` are the same code.
unfoldable pub on_tick : ℕ → ℕ → ℕ → Sched → Outcome
on_tick cpu now frame s = let s₁ = wake_sleepers now s in do_switch cpu frame (pick_next cpu s₁) s₁

unfoldable pub yield : ℕ → ℕ → ℕ → Sched → Outcome
yield cpu now frame s = let s₁ = wake_sleepers now s in do_switch cpu frame (pick_next cpu s₁) s₁

-- What `thread_mark_zombie` does to the waiting parent p of the thread t, on the CPU whose address
-- space is `root`; the parent counts one child less.
unfoldable pub notify_parent : ℕ → ℕ → ℕ → Sched → Sched
notify_parent root p t s =
    let before = s.threads p in
    let g = update s.threads p (record before { children = before.children - 1 }) in
    let parent = g p in
    if is_blocked parent.state && waits_for parent.wait_target (g t).id
    then record s {
      threads =
          update g p (record parent { wait_target = pos 0; wait_status_ptr = 0; state = ready });
      stores =
          if parent.wait_status_ptr == 0
          then s.stores
          else record { root = root; addr = parent.wait_status_ptr; value = (g t).exit_code }
            ∷ s.stores;
    }
    else record s { threads = g }

unfoldable pub mark_zombie : ℕ → ℕ → ℤ → Sched → Sched
mark_zombie root t code s =
    let s₁ = record s {
      threads = update s.threads t (record (s.threads t) { exit_code = code; state = zombie });
    } in
    elim (s.threads t).parent [ none ↦ s₁ | some p ↦ notify_parent root p t s₁ ]

unfoldable pub find_from : ℤ → (ℕ → Thread) → ℕ → ℕ → Option ℕ
find_from pid g zero i = none
find_from pid g (suc n) i =
    let rest = find_from pid g n (i + 1) in
    if not (is_unused (g i).state) && same_int (to_int (g i).id) pid then some i else rest

unfoldable pub find_thread_by_id : ℤ → Sched → Option ℕ
find_thread_by_id pid s = find_from pid s.threads max_threads 0

-- From the thread found: `scheduler_kill` on the CPU that runs the thread `caller`.
unfoldable pub kill_found : ℕ → Option ℕ → ℤ → ℕ → Sched → ℤ × Sched
kill_found cpu caller sig t s =
    if not (s.threads t).is_user
    then (minus_one, s)
    else if is_some_of t caller
    then (pos 0, s)
    else if is_zombie (s.threads t).state
    then (pos 0, s)
    else (pos 0, mark_zombie (s.root cpu) t (negate sig) s)

unfoldable pub kill : ℕ → ℤ → ℤ → Sched → ℤ × Sched
kill cpu pid sig s = elim (find_thread_by_id pid s) [
  | none ↦ (minus_one, s)
  | some t ↦ kill_found cpu (s.current cpu) sig t s
]

-- `scheduler_on_exit` once the exiting thread is a zombie.
unfoldable pub leave_zombie : ℕ → ℕ → ℕ → Sched → Outcome
leave_zombie cpu frame cur s =
    let next = pick_next cpu s in
    if next == cur
    then if is_zombie (s.threads 0).state then halt else do_switch cpu frame 0 s
    else do_switch cpu frame next s

unfoldable pub on_exit : ℕ → ℕ → ℤ → Sched → Outcome
on_exit cpu frame code s = elim (s.current cpu) [
  | none ↦ fault
  | some cur ↦
      let s₁ = record s {
        threads = update s.threads cur (record (s.threads cur) { rsp = frame });
      } in
      leave_zombie cpu frame cur (mark_zombie (s.root cpu) cur code s₁)
]

-- `scheduler_sleep` up to its trap, which is a yield.
unfoldable pub sleep : ℕ → ℕ → ℕ → Sched → Option Sched
sleep cpu now ticks s = elim (s.current cpu) [
  | none ↦ none
  | some cur ↦ some (record s {
    threads =
        update s.threads cur
          (record (s.threads cur) { wakeup_tick = (now + ticks) % pow2 64; state = sleeping });
  })
]
