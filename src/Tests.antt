-- ===== src/Tests.antt =====
-- Concrete memories, and the theorems applied to them.
mod Data
mod Machine
mod Nucleus
mod Whole
mod Queues
mod Semaphores
mod Services
