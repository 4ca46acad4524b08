-- ===== src/Vmm/Tree.antt =====
-- The trees of page tables in memory, and the map from pages to entries that each stands for.
use myos.Base.{
  ℕ, zero, suc, ◌+◌, ◌*◌, ◌/◌, ◌%◌, ◌≤◌, ◌<◌, ◌≡◌, sym, subst, true, false, Option, none, some,
  if◌then◌else◌, arith, ◌^◌,
}
use myos.Pmm.{bit_test}
use myos.Pmm.Count.{IsValid}
use myos.Vmm.{Vmm, frame, is_present, is_huge}

-- The number of a page without its n lower digits to the base 512, and its digit at a level.
abbrev pub above : ℕ → ℕ → ℕ
above zero x = x
above (suc n) x = above n x / 512

-- Of each page that is a table: its level (4 for a root, 1 for a table of pages), the upper digits of
-- the pages that it maps, and the root of the space that it belongs to. Other pages have level 0.
pub record Shape : Type 0 where
  pub level : ℕ → ℕ
  pub start : ℕ → ℕ
  pub owner : ℕ → ℕ

-- The entries of a table that belong to the space: a root's first entry maps the kernel.
abbrev pub Owned : ℕ → ℕ → Type 0
Owned level i = (i < 512) × (level ≡ 4 → 0 < i)

-- A table with its entries.
pub record IsTable (v : Vmm) (g : Shape) (t : ℕ) : Type 0 where
  pub page : t % 4096 ≡ 0
  pub inside : t < 0x10_0000_0000_0000
  pub used : bit_test (t / 4096) v.pmm ≡ true
  pub top : g.level t ≤ 4
  pub child :
      (k i : ℕ)
      → g.level t ≡ suc (suc k)
      → Owned (g.level t) i
      → is_present (v.mem t i) ≡ true
      → (is_huge (v.mem t i) ≡ false)
        × (g.level (frame (v.mem t i)) ≡ suc k)
        × (g.start (frame (v.mem t i)) ≡ g.start t * 512 + i)
        × (g.owner (frame (v.mem t i)) ≡ g.owner t)
  pub root : g.level t ≡ 4 → (g.start t ≡ 0) × (g.owner t ≡ t)

-- Every table of the shape stands in memory, and the page allocator holds its page.
pub record IsTree (v : Vmm) (g : Shape) : Type 0 where
  pub table : (t : ℕ) → 0 < g.level t → IsTable v g t
  pub pages : IsValid v.pmm
  pub page_zero : bit_test 0 v.pmm ≡ true
  pub few : v.pmm.total_pages_cnt ≤ 0x10_0000

-- The entry for a page, from a table of a level on.
unfoldable pub lookup : Vmm → ℕ → ℕ → ℕ → Option ℕ
lookup v zero t x = none
lookup v (suc zero) t x = if is_present (v.mem t (x % 512)) then some (v.mem t (x % 512)) else none
lookup v (suc (suc k)) t x =
    if is_present (v.mem t (above (suc k) x % 512))
    then lookup v (suc k) (frame (v.mem t (above (suc k) x % 512))) x
    else none

-- The number of a page in the 48 bits that the tables use; the pages of user space.
abbrev pub page_of : ℕ → ℕ
page_of virt = virt / 4096 % 2 ^ 36

abbrev pub IsUser : ℕ → Type 0
IsUser x = (2 ^ 27 ≤ x) × (x < 2 ^ 36)

-- The index of a user page in a table is an entry of the space.
pub user-Owned :
    (m x level : ℕ) → level ≡ suc (suc m) → IsUser x → Owned level (above (suc m) x % 512)
user-Owned m x level h u = (omega arith, λ e. first (omega (arith, h, e)))
  where
    first : m ≡ 2 → 0 < above (suc m) x % 512
    first e = subst (λ k. 0 < above (suc k) x % 512) (sym e) (omega (arith, u.0, u.1))
