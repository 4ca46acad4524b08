-- ===== src/Gdb/Memory.antt =====
-- Memory and registers in hexadecimal: what is written back of what was read, and lengths.
use myos.Base.{
  ℕ, zero, suc, ◌+◌, ◌-◌, ◌*◌, ◌/◌, ◌%◌, ◌<◌, ◌≡◌, refl, ap, ◌∙◌, true, false, ◌&&◌, List, length,
  ltb, leb, ◌==◌, if◌then◌else◌, arith, inl, inr, Bool-cases, update,
}
use myos.Gdb.{u64, append_hex, append_reg, write_memory, read_memory}
use myos.Gdb.Stub.{Frame, encode_registers}
use myos.Gdb.Packets.{hex_to_int-int_to_hex, nibbles}

-- A round of writing two digits.
write_memory-append_hex :
    (a k n : ℕ) (more : List ℕ) (mem : ℕ → ℕ)
    → k < 256
    → write_memory a (append_hex k more) (suc n) mem
      ≡ write_memory ((a + 1) % u64) more n (update mem a k)
unfolding write_memory
write_memory-append_hex a k n more mem h =
    let hi = hex_to_int-int_to_hex (k / 16 % 16) (omega arith) in
    let lo = hex_to_int-int_to_hex (k % 16) (omega arith) in
    rw (write_memory, hi, lo, nibbles k h) refl

-- The bytes of m from b on, copied to a.
abbrev pub copied : ℕ → ℕ → ℕ → (ℕ → ℕ) → (ℕ → ℕ) → ℕ → ℕ
copied a b n m mem k = if leb a k && ltb k (a + n) then m (b + (k - a)) else mem k

-- The round trip: what `gdb_read_memory` prints of n bytes, `gdb_write_memory` writes at another place,
-- byte by byte, and changes nothing else; the two runs stay below the end of the address space.
pub write_memory-read_memory :
    (a b n : ℕ) (m mem : ℕ → ℕ)
    → a + n < u64
    → b + n < u64
    → ((k : ℕ) → m k < 256)
    → (k : ℕ) → write_memory a (read_memory b n m) n mem k ≡ copied a b n m mem k
unfolding read_memory write_memory
write_memory-read_memory a b zero m mem ha hb bytes k = ground arith
write_memory-read_memory a b (suc n) m mem ha hb bytes k =
    let a' : (a + 1) % u64 ≡ a + 1 = omega (arith, ha) in
    let b' : (b + 1) % u64 ≡ b + 1 = omega (arith, hb) in
    let rec =
      write_memory-read_memory (a + 1) (b + 1) n m (update mem a (m b)) (omega (arith, ha))
        (omega (arith, hb)) bytes k in
    ap (λ f. f k)
      (write_memory-append_hex a (m b) n (read_memory ((b + 1) % u64) n m) mem (bytes b))
    ∙ (rw (a', b') rec ∙ step)
  where
    step : copied (a + 1) (b + 1) n m (update mem a (m b)) k ≡ copied a b (suc n) m mem k
    step = elim (Bool-cases (k == a)) [
      | inl e ↦
          let here : k ≡ a = ground (arith, e) in
          let low : leb (a + 1) a ≡ false = ground arith in
          let self : leb a a ≡ true = ground arith in
          let high : ltb a (a + suc n) ≡ true = ground arith in
          let at : b + (a - a) ≡ b = omega arith in
          let same : (a == a) ≡ true = ground arith in rw here (rw (low, self, high, at, same) refl)
      | inr e ↦ elim (Bool-cases (leb (a + 1) k && ltb k (a + 1 + n))) [
        | inl inside ↦
            let w : (leb a k && ltb k (a + suc n)) ≡ true = ground (arith, inside) in
            let at : b + 1 + (k - (a + 1)) ≡ b + (k - a) = ground (arith, inside) in
            rw (inside, w) (ap m at)
        | inr outside ↦
            let w : (leb a k && ltb k (a + suc n)) ≡ false = ground (arith, outside, e) in
            rw (outside, w) (rw e refl)
      ]
    ]

length-read_memory : (b n : ℕ) (m : ℕ → ℕ) → length (read_memory b n m) ≡ n * 2
unfolding read_memory
length-read_memory b zero m = refl
length-read_memory b (suc n) m = omega (arith, length-read_memory ((b + 1) % u64) n m)

length-append_reg :
    (value bytes : ℕ) (more : List ℕ)
    → length (append_reg value bytes more) ≡ bytes * 2 + length more
unfolding append_reg
length-append_reg value zero more = omega arith
length-append_reg value (suc bytes) more = omega (arith, length-append_reg (value / 256) bytes more)

-- For every frame the registers take 328 characters: with the terminator they fit into the buffer of 512.
pub length-encode_registers : (f : Frame) → length (encode_registers f) ≡ 328
unfolding encode_registers
length-encode_registers f = simp (length-append_reg)
