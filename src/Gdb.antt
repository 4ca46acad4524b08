-- ===== src/Gdb.antt =====
-- src/gdb.c: the debugger's stub on the serial line, its packets, hexadecimal numbers and memory access.
-- The line's input is a list of bytes; a function that reads waits, with the result none, where the
-- list ends. A C string is the list of its characters, its terminator left out.
pub mod Stub
pub mod Session
pub mod Packets
pub mod Memory
pub mod Breaks
pub mod Events
pub mod Rounds
pub mod Resume
pub mod Step
mod Tests
use mathlib.Core.Option
use myos.Base.{
  ℕ, zero, suc, ◌+◌, ◌-◌, ◌*◌, ◌/◌, ◌%◌, ◌^◌, bit_or, Bool, true, false, not, ◌&&◌, ◌||◌, Option,
  none, some, List, [], ◌∷◌, ◌++◌, ltb, leb, ◌==◌, if◌then◌else◌, update,
}
use myos.Base.Text.{char_at, rest_of}

abbrev pub max_packet : ℕ
max_packet = 512

abbrev pub u64 : ℕ
u64 = 2 ^ 64

-- `none` is the result -1.
unfoldable pub hex_to_int : ℕ → Option ℕ
hex_to_int c =
    if leb b'0' c && leb c b'9'
    then some (c - b'0')
    else if leb b'a' c && leb c b'f'
    then some (10 + (c - b'a'))
    else if leb b'A' c && leb c b'F'
    then some (10 + (c - b'A'))
    else none

-- The table "0123456789abcdef" at the four lower bits.
unfoldable pub int_to_hex : ℕ → ℕ
int_to_hex v = if ltb (v % 16) 10 then b'0' + v % 16 else b'a' + (v % 16 - 10)

unfoldable pub checksum : ℕ → List ℕ → ℕ
checksum csum [] = csum
checksum csum (c ∷ text) = checksum ((csum + c) % 256) text

-- What `gdb_append_hex` appends.
abbrev pub append_hex : ℕ → List ℕ → List ℕ
append_hex val more = int_to_hex (val / 16 % 16) ∷ int_to_hex (val % 16) ∷ more

-- What `gdb_send_packet` sends.
unfoldable pub send_packet : List ℕ → List ℕ
send_packet text = b'$' ∷ (text ++ (b'#' ∷ append_hex (checksum 0 text) []))

-- Waiting for the start of a packet: `true` for a start, `false` for an interrupt.
unfoldable pub await : List ℕ → Option (Bool × List ℕ)
await [] = none
await (c ∷ s) = if c == 3 then some (false, s) else if c == b'$' then some (true, s) else await s

-- The loop over the data, with i characters stored and the sum of all so far.
unfoldable pub read_data : List ℕ → ℕ → ℕ → Option (List ℕ × ℕ × List ℕ)
read_data [] i csum = none
read_data (c ∷ s) i csum =
    let stored = ltb (i + 1) max_packet in
    let more = read_data s (if stored then i + 1 else i) ((csum + c) % 256) in
    if c == b'#'
    then some ([], csum, s)
    else Option.map (λ (buf, sum, rest). (if stored then c ∷ buf else buf, sum, rest)) more

-- `(uint8_t)((hi << 4) | lo)`, where -1 has all bits.
abbrev pub byte_of : Option ℕ → Option ℕ → ℕ
byte_of none none = 255
byte_of none (some lo) = bit_or 240 lo
byte_of (some hi) none = 255
byte_of (some hi) (some lo) = bit_or (hi * 16) lo

-- The comparison of the sums: the data, nothing for a wrong sum, and the answer.
abbrev pub answer : List ℕ → ℕ → List ℕ → Option (List ℕ × List ℕ × List ℕ)
answer buf csum (hi ∷ lo ∷ s) =
    if byte_of (hex_to_int hi) (hex_to_int lo) == csum
    then some (buf, b'+' ∷ [], s)
    else some ([], b'-' ∷ [], s)
answer buf csum s = none

-- The data of a packet, what is sent in answer, and the input left.
unfoldable pub read_packet : List ℕ → Option (List ℕ × List ℕ × List ℕ)
read_packet s = elim (await s) [
  | none ↦ none
  | some (false, rest) ↦ some ([], [], rest)
  | some (true, rest) ↦ elim (read_data rest 0 0) [
    | none ↦ none
    | some (buf, csum, after) ↦ answer buf csum after
  ]
]

-- What `gdb_append_reg` appends.
unfoldable pub append_reg : ℕ → ℕ → List ℕ → List ℕ
append_reg value zero more = more
append_reg value (suc bytes) more = append_hex (value % 256) (append_reg (value / 256) bytes more)

-- The loop of `gdb_parse_hex`: the value, the number of digits and what follows.
unfoldable pub parse_digits : List ℕ → ℕ → ℕ → ℕ × ℕ × List ℕ
parse_digits [] value digits = (value, digits, [])
parse_digits (c ∷ p) value digits = elim (hex_to_int c) [
  | none ↦ (value, digits, c ∷ p)
  | some v ↦ parse_digits p (bit_or (value * 16 % u64) v) (digits + 1)
]

-- The value, if there is a digit, and what follows.
unfoldable pub parse_hex : List ℕ → Option ℕ × List ℕ
parse_hex p =
    let (value, digits, rest) = parse_digits p 0 0 in
    if digits == 0 then (none, rest) else (some value, rest)

-- The loop of `gdb_write_memory`, with len rounds left.
unfoldable pub write_memory : ℕ → List ℕ → ℕ → (ℕ → ℕ) → ℕ → ℕ
write_memory addr text zero mem = mem
write_memory addr text (suc len) mem = elim (hex_to_int (char_at text)) [
  | none ↦ mem
  | some hi ↦ elim (hex_to_int (char_at (rest_of text))) [
    | none ↦ mem
    | some lo ↦
        write_memory ((addr + 1) % u64) (rest_of (rest_of text)) len
          (update mem addr (bit_or (hi * 16) lo))
  ]
]

-- The loop of `gdb_read_memory`.
unfoldable pub read_memory : ℕ → ℕ → (ℕ → ℕ) → List ℕ
read_memory addr zero mem = []
read_memory addr (suc len) mem = append_hex (mem addr) (read_memory ((addr + 1) % u64) len mem)
