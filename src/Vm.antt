-- ===== src/Vm.antt =====
-- kernel/src/memory/vm: addresses, page table entries and the four-level page table.
pub mod Addr
pub mod Pte
pub mod PageTable
pub mod AddressSpace
