-- ===== src/Jobs.antt =====
-- Video jobs: their creation, their cancellation, and the catalog (src/modules/jobs).
pub mod Catalog
pub mod Create
pub mod Cancel
pub mod Books
pub mod Charge
