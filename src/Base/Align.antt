-- ===== src/Base/Align.antt =====
-- src/lib.c: the alignment helpers, on uint64_t.
use Prim.Native.Nat.{ℕ, ◌+◌, ◌-◌, ◌*◌, ◌/◌, ◌%◌, ◌^◌, ◌<◌, bit_and}
use mathlib.Core.Path.{◌≡◌, ap, ◌∙◌}
use native.Mathlib.Omega.{arith}
use myos.Base.Bits.{bit_and-ones, bit_and-shl, low_of_lt, ones, pow2, shl, shr}

abbrev pub u64_mod : ℕ
u64_mod = 2 ^ 64

-- `~x` on uint64_t
abbrev pub not64 : ℕ → ℕ
not64 x = u64_mod - 1 - x

-- `a - 1` on uint64_t
abbrev pub pred64 : ℕ → ℕ
pred64 a = (a + (u64_mod - 1)) % u64_mod

unfoldable pub align_up_u64 : ℕ → ℕ → ℕ
align_up_u64 v a = bit_and ((v + pred64 a) % u64_mod) (not64 (pred64 a))

unfoldable pub align_down_u64 : ℕ → ℕ → ℕ
align_down_u64 v a = bit_and v (not64 (pred64 a))

-- A mask of n ones over k zeros drops the k lower digits of a number below 2^(n + k).
pub bit_and_upper : (k n a : ℕ) → shr k a < pow2 n → bit_and a (shl k (ones n)) ≡ shl k (shr k a)
bit_and_upper k n a h =
    bit_and-shl k a (ones n) ∙ ap (shl k) (bit_and-ones n (shr k a) ∙ low_of_lt n (shr k a) h)

pub page_mask : (v : ℕ) → v < u64_mod → bit_and v 0xffff_ffff_ffff_f000 ≡ v / 4096 * 4096
page_mask v h = omega (arith, bit_and_upper 12 52 v (omega arith))

pub align_up_page : (v : ℕ) → v + 4095 < u64_mod → align_up_u64 v 4096 ≡ (v + 4095) / 4096 * 4096
unfolding align_up_u64
align_up_page v h = omega (arith, page_mask ((v + 4095) % u64_mod) (omega arith))

pub align_down_page : (v : ℕ) → v < u64_mod → align_down_u64 v 4096 ≡ v / 4096 * 4096
unfolding align_down_u64
align_down_page v h = page_mask v h

para_mask : (v : ℕ) → v < u64_mod → bit_and v 0xffff_ffff_ffff_fff0 ≡ v / 16 * 16
para_mask v h = omega (arith, bit_and_upper 4 60 v (omega arith))

pub align_up_para : (v : ℕ) → v + 15 < u64_mod → align_up_u64 v 16 ≡ (v + 15) / 16 * 16
unfolding align_up_u64
align_up_para v h = omega (arith, para_mask ((v + 15) % u64_mod) (omega arith))

sector_mask : (v : ℕ) → v < u64_mod → bit_and v 0xffff_ffff_ffff_fe00 ≡ v / 512 * 512
sector_mask v h = omega (arith, bit_and_upper 9 55 v (omega arith))

pub align_up_sector : (v : ℕ) → v + 511 < u64_mod → align_up_u64 v 512 ≡ (v + 511) / 512 * 512
unfolding align_up_u64
align_up_sector v h = omega (arith, sector_mask ((v + 511) % u64_mod) (omega arith))
