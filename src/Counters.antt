-- ===== src/Counters.antt =====
-- The counters of 并发下的技术方案（锁）: threads that add to one number, with an atomic instruction (Atomic),
-- with compare-and-swap (Cas), and under a lock (Mutex). A schedule says which thread goes next.
pub mod Atomic
pub mod Cas
pub mod Mutex
mod Examples
