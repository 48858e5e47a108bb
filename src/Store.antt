-- ===== src/Store.antt =====
-- The ledger's database as the server sees it: rows, queries, the row-level policies of
-- supabase/migrations, and the interface of PostgREST with the behaviour that is relied on.
mod Rows
mod Query
mod Policy
mod Builder
pub mod Change
pub mod Backend
pub mod Laws
pub mod Returned
pub mod Changed
pub mod Available
pub use Rows.*
pub use Query.*
pub use Builder.*
unfoldable pub use Policy.*
