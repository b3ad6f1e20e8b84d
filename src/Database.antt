-- ===== src/Database.antt =====
-- The tables that the inventory services share (prisma/schema.prisma), the client's calls on them
-- and the way in which a service method runs.
pub mod Laws
pub mod Search
pub mod Paging
mod Rows
mod Tables
mod Monad
pub use Rows.*
pub use Tables.*
unfoldable pub use Monad.*
