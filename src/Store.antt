-- ===== src/Store.antt =====
-- The database that the services share (prisma/schema.prisma, src/infra/prisma/prisma.service.ts).
mod Rows
mod Monad
pub mod Rules
pub use Rows.*
pub use Monad.*
