-- ===== src/Gdb/Packets.antt =====
-- Packets on the serial line: what is read of what was sent.
use mathlib.Core.Bool.{true≢false}
use myos.Base.{
  ℕ, zero, suc, ◌+◌, ◌-◌, ◌*◌, ◌/◌, ◌%◌, ◌≤◌, ◌<◌, ◌≡◌, refl, sym, ap, ◌∙◌, bit_or, Bool, true,
  false, not, ◌&&◌, some, List, [], ◌∷◌, ◌++◌, length, take, ltb, ◌==◌, if◌then◌else◌, arith, inl,
  inr, Bool-cases, ++_assoc,
}
use myos.Base.Bits.{holds_below, holds_below→test}
use myos.Base.Text.{all}
use myos.Gdb.{
  max_packet, hex_to_int, int_to_hex, checksum, append_hex, send_packet, await, read_data, byte_of,
  read_packet,
}

pub hex_to_int-int_to_hex : (v : ℕ) → v < 16 → hex_to_int (int_to_hex v) ≡ some v
unfolding hex_to_int int_to_hex
hex_to_int-int_to_hex v h = ground (arith, h)

pub nibbles : (k : ℕ) → k < 256 → bit_or (k / 16 % 16 * 16) (k % 16) ≡ k
unfolding holds_below
nibbles k h =
    ==→≡ _ k (holds_below→test (λ j. bit_or (j / 16 % 16 * 16) (j % 16) == j) 256 k computed h)
  where
    computed : holds_below (λ j. bit_or (j / 16 % 16 * 16) (j % 16) == j) 256 ≡ true
    computed = refl

    ==→≡ : (a b : ℕ) → (a == b) ≡ true → a ≡ b
    ==→≡ a b e = ground (arith, e)

pub byte_of-int_to_hex :
    (k : ℕ)
    → k < 256
    → byte_of (hex_to_int (int_to_hex (k / 16 % 16))) (hex_to_int (int_to_hex (k % 16))) ≡ k
byte_of-int_to_hex k h =
    let hi = hex_to_int-int_to_hex (k / 16 % 16) (omega arith) in
    let lo = hex_to_int-int_to_hex (k % 16) (omega arith) in rw (hi, lo) (nibbles k h)

checksum-lt : (csum : ℕ) (text : List ℕ) → csum < 256 → checksum csum text < 256
unfolding checksum
checksum-lt csum [] h = h
checksum-lt csum (c ∷ text) h = checksum-lt ((csum + c) % 256) text (omega arith)

-- The characters that may stand in the data, and before a packet.
abbrev pub is_data : ℕ → Bool
is_data c = not (c == b'#')

abbrev pub is_noise : ℕ → Bool
is_noise c = not (c == 3) && not (c == b'$')

take_nil : (n : ℕ) → Path (List ℕ) (take n []) []
take_nil zero = refl
take_nil (suc n) = refl

head_true : (a b : Bool) → (a && b) ≡ true → (a ≡ true) × (b ≡ true)
head_true true b e = (refl, e)
head_true false b e = (e, absurd (true≢false (sym e)))

read_data_lem :
    (text rest : List ℕ) (i csum : ℕ)
    → all is_data text ≡ true
    → i ≤ 511
    → read_data (text ++ (b'#' ∷ rest)) i csum
      ≡ some (take (511 - i) text, checksum csum text, rest)
unfolding read_data checksum
read_data_lem [] rest i csum ok h = rw (take_nil (511 - i)) refl
read_data_lem (c ∷ text) rest i csum ok h =
    let (here, more) = head_true (is_data c) (all is_data text) ok in
    let e : (c == b'#') ≡ false = ground (arith, here) in
    elim (Bool-cases (ltb (i + 1) 512)) [
      | inl room ↦
          let n : 511 - i ≡ suc (511 - (i + 1)) = ground (arith, room) in
          let rec =
            read_data_lem text rest (i + 1) ((csum + c) % 256) more (ground (arith, room)) in
          rw (e, room) (rw (n, rec) refl)
      | inr full ↦
          let n : 511 - i ≡ 0 = ground (arith, full) in
          let rec = read_data_lem text rest i ((csum + c) % 256) more h in
          rw (e, full) (rw (rec, n) refl)
    ]

await_lem :
    (noise s : List ℕ) → all is_noise noise ≡ true → await (noise ++ (b'$' ∷ s)) ≡ some (true, s)
unfolding await
await_lem [] s ok = refl
await_lem (c ∷ noise) s ok =
    let (here, more) = head_true (is_noise c) (all is_noise noise) ok in
    let e : (c == 3) ≡ false = ground (arith, here) in
    let e' : (c == b'$') ≡ false = ground (arith, here) in rw (e, e') (await_lem noise s more)

pub read_packet_lem :
    (noise text rest : List ℕ) (hi lo : ℕ)
    → all is_noise noise ≡ true
    → all is_data text ≡ true
    → read_packet (noise ++ (b'$' ∷ (text ++ (b'#' ∷ hi ∷ lo ∷ rest))))
      ≡ some (
          if byte_of (hex_to_int hi) (hex_to_int lo) == checksum 0 text
          then (take 511 text, b'+' ∷ [], rest)
          else ([], b'-' ∷ [], rest))
unfolding read_packet
read_packet_lem noise text rest hi lo n d =
    rw
      (
        read_packet,
        await_lem noise (text ++ (b'#' ∷ hi ∷ lo ∷ rest)) n,
        read_data_lem text (hi ∷ lo ∷ rest) 0 0 d (omega arith),
      )
      (elim (Bool-cases (byte_of (hex_to_int hi) (hex_to_int lo) == checksum 0 text)) [
        | inl e ↦ rw e refl
        | inr e ↦ rw e refl
      ])

take_all : (n : ℕ) (text : List ℕ) → length text ≤ n → take n text ≡ text
take_all n [] h = take_nil n
take_all zero (c ∷ text) h = absurd (omega (arith, h))
take_all (suc n) (c ∷ text) h = ap (λ z. c ∷ z) (take_all n text (omega (arith, h)))

-- The round trip: of noise and a packet that `gdb_send_packet` sends, with data of less than 512
-- characters without a `#`, the data is read, it is answered by `+`, and the input after it is left.
pub read_packet-send_packet :
    (noise text rest : List ℕ)
    → all is_noise noise ≡ true
    → all is_data text ≡ true
    → length text < max_packet
    → read_packet (noise ++ (send_packet text ++ rest)) ≡ some (text, b'+' ∷ [], rest)
unfolding send_packet
read_packet-send_packet noise text rest n d h =
    let k = checksum 0 text in
    let sum : byte_of (hex_to_int (int_to_hex (k / 16 % 16))) (hex_to_int (int_to_hex (k % 16)))
        ≡ k =
      byte_of-int_to_hex k (checksum-lt 0 text (omega arith)) in
    let same : (k == k) ≡ true = ground arith in
    ap (λ s. read_packet (noise ++ (b'$' ∷ s))) (++_assoc text (b'#' ∷ append_hex k []) rest)
    ∙ (read_packet_lem noise text rest (int_to_hex (k / 16 % 16)) (int_to_hex (k % 16)) n d
        ∙ (rw (sum, same, take_all 511 text (omega (arith, h))) refl))
