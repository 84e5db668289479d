-- ===== src/Proc.antt =====
-- lab6/xv6-public/proc.h and proc.c: the process table, its loops (Table), the life of a process
-- up to fork (Life), its end by exit and wait (End), and the switches between processes
-- (Switch).
pub mod Table
pub mod Life
pub mod Files
pub mod End
pub mod Switch
