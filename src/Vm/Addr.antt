-- ===== src/Vm/Addr.antt =====
-- kernel/src/memory/vm/addr.rs: virtual and physical addresses and page numbers, as the numbers of
-- 64 bits inside them. A mask of low bits is a remainder, a shift a quotient or a product.
use omniagent_os.Base.{
  ℕ, ◌+◌, ◌-◌, ◌*◌, ◌/◌, ◌%◌, ◌^◌, ◌≤◌, ◌<◌, ◌≡◌, Bool, ◌==◌, if◌then◌else◌, arith,
}

abbrev pub page_size : ℕ
page_size = 4096

unfoldable pub page_offset : ℕ → ℕ
page_offset addr = addr % 4096

unfoldable pub page_number : ℕ → ℕ
page_number addr = addr / 4096

unfoldable pub align_down : ℕ → ℕ
align_down addr = addr - addr % 4096

unfoldable pub align_up : ℕ → ℕ
align_up addr = let above = (addr + 4096 - 1) % 2 ^ 64 in above - above % 4096

unfoldable pub is_aligned : ℕ → Bool
is_aligned addr = (addr % 4096) == 0

-- Bit 47, and the 16 bits above.
unfoldable pub is_canonical : ℕ → Bool
is_canonical addr =
    if ((addr / 2 ^ 47) % 2) == 0
    then ((addr / 2 ^ 48) % 2 ^ 16) == 0
    else ((addr / 2 ^ 48) % 2 ^ 16) == 0xFFFF

-- `start_address` and `offset` of a page number.
unfoldable pub start_address : ℕ → ℕ
start_address num = num * 4096 % 2 ^ 64

unfoldable pub offset_by : ℕ → ℕ → ℕ
offset_by num offset = (num + offset) % 2 ^ 64

-- An address at least a page below the end of the address space is the start of its page and its
-- offset; aligning down gives that start, and aligning up the least start of a page that is not
-- below the address.
pub page_number-start_address :
    (addr : ℕ)
    → addr + 4096 ≤ 2 ^ 64
    → (start_address (page_number addr) + page_offset addr ≡ addr)
      × (align_down addr ≡ start_address (page_number addr))
      × (page_offset (align_down addr) ≡ 0)
      × (page_offset (align_up addr) ≡ 0)
      × (addr ≤ align_up addr)
      × (align_up addr < addr + 4096)
unfolding start_address page_number page_offset align_down align_up
page_number-start_address addr h =
    (omega arith, omega arith, omega arith, omega arith, omega arith, omega arith)
