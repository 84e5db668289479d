-- ===== src/Tests.antt =====
-- Concrete runs of the model, and the theorems at these inputs.
mod Paging
mod Processes
mod Storage
mod Buffers
mod Files
mod Programs
mod Descriptors
mod Lines
mod Wiring
