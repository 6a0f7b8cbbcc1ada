-- ===== src/Tests.antt =====
-- Concrete runs of the services: tests of the definitions, and the theorems at concrete inputs.
mod Data
mod System
mod Paid
mod Momo
mod Pages
mod Posts
mod Refunds
mod Payos
mod Jobs
mod Codes
mod Sync
mod Worker
mod Auth
