-- ===== src/Tests.antt =====
-- Concrete inputs on which the theorems are applied.
mod Caches
mod Loops
mod Texts
mod Leases
mod Pools
mod Users
