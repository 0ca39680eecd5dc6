-- ===== src/Prisma.antt =====
-- The database client that the repositories call. It is a package, not code of this repository, so
-- a table is known here by the calls that the repositories make and by their documented behaviour.
mod Laws
pub mod Memory
pub use Laws.*
pub use Defs.*
mod Defs
