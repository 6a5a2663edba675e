-- ===== src/Vm/Pte.antt =====
-- kernel/src/memory/vm/pte.rs: a page table entry, with flags in its low 12 bits and the address in
-- the others. `from_bits_truncate` keeps the bits that are flags, 0 to 8 and 11.
use omniagent_os.Base.{ℕ, ◌+◌, ◌-◌, ◌*◌, ◌/◌, ◌%◌, ◌<◌, ◌≡◌, Bool, ◌==◌, arith}

-- The numbers of the bits.
abbrev pub present : ℕ
present = 0

abbrev pub writable : ℕ
writable = 1

abbrev pub user_accessible : ℕ
user_accessible = 2

abbrev pub no_execute : ℕ
no_execute = 11

unfoldable pub is_unused : ℕ → Bool
is_unused entry = entry == 0

-- Bits 0 to 8, and bit 11.
unfoldable pub flags : ℕ → ℕ
flags entry = entry % 4096 % 512 + entry % 4096 / 2048 * 2048

unfoldable pub phys_addr : ℕ → ℕ
phys_addr entry = entry - entry % 4096

unfoldable pub set_addr : ℕ → ℕ → ℕ
set_addr entry addr = entry % 4096 + (addr - addr % 4096)

unfoldable pub set_flags : ℕ → ℕ → ℕ
set_flags entry bits = (entry - entry % 4096) + bits % 4096

unfoldable pub set_entry : ℕ → ℕ → ℕ
set_entry addr bits = (addr - addr % 4096) + bits % 4096

-- A set of flags has none of the bits 9 and 10, and none from 12.
abbrev pub IsFlags : ℕ → Type 0
IsFlags bits = (bits < 4096) × ((bits / 512) % 4 ≡ 0)

-- Both parts are read back from what `set` stores, and each setter keeps the other part.
pub flags-set_entry :
    (addr bits entry : ℕ)
    → IsFlags bits
    → (flags (set_entry addr bits) ≡ bits)
      × (phys_addr (set_entry addr bits) ≡ addr - addr % 4096)
      × (phys_addr (set_flags entry bits) ≡ phys_addr entry)
      × (flags (set_flags entry bits) ≡ bits)
      × (flags (set_addr entry addr) ≡ flags entry)
      × (phys_addr (set_addr entry addr) ≡ addr - addr % 4096)
unfolding flags set_entry phys_addr set_flags set_addr
flags-set_entry addr bits entry h =
    (omega arith, omega arith, omega arith, omega arith, omega arith, omega arith)
