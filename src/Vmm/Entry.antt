-- ===== src/Vmm/Entry.antt =====
-- The words of page tables: what an entry made of a frame and flags holds.
use myos.Base.{
  ℕ, ◌%◌, ◌<◌, ◌≡◌, refl, ap, ap₂, ◌∙◌, bit_and, bit_or, true, false, ◌==◌, arith, inl, inr,
  Bool-cases,
}
use myos.Base.Bits.{bit_and-shl, bit_and-ones, low_of_lt, shr, ones}
use myos.Base.Or.{bit_and-bit_or, bit_and_idem, bit_or-zero, bit_or-mod_two}
use myos.Vmm.{addr_mask, frame, is_present, is_huge, table_flags}

and_one : (e : ℕ) → bit_and e 1 ≡ e % 2
and_one e = omega (arith, bit_and-ones 1 e)

-- A page below 2^52 is its own frame.
pub frame_of_page : (a : ℕ) → a % 4096 ≡ 0 → a < 0x10_0000_0000_0000 → frame a ≡ a
frame_of_page a h l = omega (
  arith,
  bit_and-shl 12 a (ones 40),
  bit_and-ones 40 (shr 12 a),
  low_of_lt 40 (shr 12 a) (omega arith),
)

pub present_of_odd : (e : ℕ) → e % 2 ≡ 1 → is_present e ≡ true
present_of_odd e h = ground (arith, and_one e)

pub is_present-zero : is_present 0 ≡ false
is_present-zero = refl

-- Flags do not reach the frame.
pub frame-bit_or : (a b : ℕ) → frame b ≡ 0 → frame (bit_or a b) ≡ frame a
frame-bit_or a b h =
    bit_and-bit_or a b addr_mask ∙ (ap (bit_or (frame a)) h ∙ bit_or-zero (frame a))

pub is_huge-bit_or : (a b : ℕ) → a % 4096 ≡ 0 → bit_and b 0x80 ≡ 0 → is_huge (bit_or a b) ≡ false
is_huge-bit_or a b h f =
    let page : bit_and a 0x80 ≡ 0 = omega (arith, bit_and-shl 7 a 1, and_one (shr 7 a)) in
    let e : bit_and (bit_or a b) 0x80 ≡ 0 = bit_and-bit_or a b 0x80 ∙ ap₂ bit_or page f in
    ground (arith, e)

pub bit_or-odd : (a b : ℕ) → b % 2 ≡ 1 → bit_or a b % 2 ≡ 1
bit_or-odd a b h = omega (arith, bit_or-mod_two a b)

-- The flags of a table: its pages are present, and neither huge nor a part of the frame.
pub table_flags_lem :
    (flags : ℕ)
    → (frame (table_flags flags) ≡ 0)
      × (bit_and (table_flags flags) 0x80 ≡ 0)
      × (table_flags flags % 2 ≡ 1)
table_flags_lem flags = elim (Bool-cases (bit_and flags 4 == 0)) [
  | inl e ↦ rw e (refl, refl, refl)
  | inr e ↦ rw e (refl, refl, refl)
]

-- An entry for a page: present, with the frame of the page.
pub leaf_entry :
    (phys flags : ℕ)
    → frame flags ≡ 0
    → let e = bit_or (frame phys) (bit_or flags 1) in (is_present e ≡ true) × (frame e ≡ frame phys)
leaf_entry phys flags h = (
  present_of_odd _ (bit_or-odd (frame phys) (bit_or flags 1) (bit_or-odd flags 1 refl)),
  frame-bit_or (frame phys) (bit_or flags 1) (frame-bit_or flags 1 refl ∙ h)
      ∙ bit_and_idem phys addr_mask,
)
