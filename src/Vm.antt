-- ===== src/Vm.antt =====
-- lab6/xv6-public/vm.c: page tables, the growth and the release of a user address space, and
-- copy-on-write fork.
pub mod Table
pub mod Space
pub mod Fork
