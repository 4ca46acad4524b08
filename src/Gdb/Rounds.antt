-- ===== src/Gdb/Rounds.antt =====
-- The rounds of a session: the fuel is enough, and a breakpoint is passed.
use mathlib.Core.Option
use myos.Base.{
  ℕ, zero, suc, ◌+◌, ◌%◌, ◌≤◌, ◌<◌, ◌≡◌, refl, Bool, true, false, Option, none, some, List, [], ◌∷◌,
  length, ltb, ◌==◌, if◌then◌else◌, arith, inl, inr, Bool-cases,
}
use myos.Gdb.{max_packet, hex_to_int, byte_of, await, read_data, answer, read_packet}
use myos.Gdb.Stub.{Frame, Stub}
use myos.Gdb.Session.{Outcome, go_round, round, session}

-- A step that reads leaves less than n of the input.
abbrev Shorter : {A : Type 0} → ℕ → Option (A × List ℕ) → Type 0
Shorter n none = Path Bool true true
Shorter n (some (a, rest)) = length rest < n

abbrev Left : {A B : Type 0} → ℕ → Option (A × B × List ℕ) → Type 0
Left n none = Path Bool true true
Left n (some (a, b, rest)) = length rest < n

Shorter-more : {A : Type 0} (m n : ℕ) (o : Option (A × List ℕ)) → m ≤ n → Shorter m o → Shorter n o
Shorter-more m n none h l = refl
Shorter-more m n (some (a, rest)) h l = omega (arith, h, l)

await-Shorter : (s : List ℕ) → Shorter (length s) (await s)
unfolding await
await-Shorter [] = refl
await-Shorter (c ∷ s) = elim (Bool-cases (c == 3)) [
  | inl e ↦ rw e (omega arith)
  | inr e ↦ elim (Bool-cases (c == b'$')) [
    | inl e' ↦ rw (e, e') (omega arith)
    | inr e' ↦
        rw (e, e')
          (Shorter-more (length s) (length (c ∷ s)) (await s) (omega arith) (await-Shorter s))
  ]
]

Left-more : {A B : Type 0} (m n : ℕ) (o : Option (A × B × List ℕ)) → m ≤ n → Left m o → Left n o
Left-more m n none h l = refl
Left-more m n (some (a, b, rest)) h l = omega (arith, h, l)

Left-map :
    (n : ℕ) (st : Bool) (c : ℕ) (o : Option (List ℕ × ℕ × List ℕ))
    → Left n o
    → Left (n + 1) (Option.map (λ (buf, sum, rest). (if st then c ∷ buf else buf, sum, rest)) o)
Left-map n st c none l = refl
Left-map n st c (some (buf, sum, rest)) l = omega (arith, l)

read_data-Left : (s : List ℕ) (i csum : ℕ) → Left (length s) (read_data s i csum)
unfolding read_data
read_data-Left [] i csum = refl
read_data-Left (c ∷ s) i csum = elim (Bool-cases (c == b'#')) [
  | inl e ↦ rw e (omega arith)
  | inr e ↦
      let st = ltb (i + 1) max_packet in
      rw e (
        Left-more (length s + 1) (length (c ∷ s)) _ (omega arith) (
          Left-map (length s) st c _
            (read_data-Left s (if st then i + 1 else i) ((csum + c) % 256))))
]

answer-Left : (buf : List ℕ) (csum : ℕ) (s : List ℕ) → Left (length s) (answer buf csum s)
answer-Left buf csum [] = refl
answer-Left buf csum (hi ∷ []) = refl
answer-Left buf csum (hi ∷ lo ∷ s) =
    elim (Bool-cases (byte_of (hex_to_int hi) (hex_to_int lo) == csum)) [
      | inl e ↦ rw e (omega arith)
      | inr e ↦ rw e (omega arith)
    ]

-- The parts of reading a packet after its start, and after its data.
abbrev finish : Option (List ℕ × ℕ × List ℕ) → Option (List ℕ × List ℕ × List ℕ)
finish none = none
finish (some (buf, csum, after)) = answer buf csum after

abbrev go_in : Option (Bool × List ℕ) → Option (List ℕ × List ℕ × List ℕ)
go_in none = none
go_in (some (false, rest)) = some ([], [], rest)
go_in (some (true, rest)) = finish (read_data rest 0 0)

finish-Left : (n : ℕ) (o : Option (List ℕ × ℕ × List ℕ)) → Left n o → Left n (finish o)
finish-Left n none l = refl
finish-Left n (some (buf, csum, after)) l =
    Left-more (length after) n (answer buf csum after) (omega (arith, l))
      (answer-Left buf csum after)

go_in-Left : (n : ℕ) (o : Option (Bool × List ℕ)) → Shorter n o → Left n (go_in o)
go_in-Left n none l = refl
go_in-Left n (some (false, rest)) l = l
go_in-Left n (some (true, rest)) l =
    finish-Left n (read_data rest 0 0)
      (Left-more (length rest) n (read_data rest 0 0) (omega (arith, l)) (read_data-Left rest 0 0))

-- A packet takes input.
read_packet-Left : (s : List ℕ) → Left (length s) (read_packet s)
unfolding read_packet
read_packet-Left s = go_in-Left (length s) (await s) (await-Shorter s)

-- Two ways to go on that agree on shorter input give the same round.
go_round-agree :
    (q : Option Bool × Frame × Stub) (rest : List ℕ) (next next' : List ℕ → Frame → Stub → Outcome)
    → ((f : Frame) (g : Stub) → next rest f g ≡ next' rest f g)
    → go_round q rest next ≡ go_round q rest next'
go_round-agree (none, f, g) rest next next' same = same f g
go_round-agree (some single_step, f, g) rest next next' same = refl

round-agree :
    (n : ℕ) (o : Option (List ℕ × List ℕ × List ℕ)) (f : Frame) (g : Stub)
    (next next' : List ℕ → Frame → Stub → Outcome)
    → Left n o
    → ((s : List ℕ) (f : Frame) (g : Stub) → length s < n → next s f g ≡ next' s f g)
    → round o f g next ≡ round o f g next'
round-agree n none f g next next' l same = refl
round-agree n (some ([], out, rest)) f g next next' l same = same rest f _ l
round-agree n (some (c ∷ cs, out, rest)) f g next next' l same =
    go_round-agree _ rest next next' (λ f' g'. same rest f' g' l)

-- The fuel is enough: every amount above the length of the input gives the same end of the session.
pub session-enough :
    (m n : ℕ) (s : List ℕ) (f : Frame) (g : Stub)
    → length s < m
    → length s < n
    → session m s f g ≡ session n s f g
unfolding session
session-enough zero n s f g a b = absurd (omega (arith, a))
session-enough (suc m) zero s f g a b = absurd (omega (arith, b))
session-enough (suc m) (suc n) s f g a b =
    round-agree (length s) (read_packet s) f g (session m) (session n) (read_packet-Left s)
      (λ s' f' g' l. session-enough m n s' f' g' (omega (arith, l, a)) (omega (arith, l, b)))
