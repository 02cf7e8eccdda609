-- ===== src/Database.antt =====
-- The relational tables that the services keep their rows in. SQLAlchemy and PostgreSQL are not
-- part of the repository: `Table` is the interface that the services' statements use, with the
-- documented behaviour of those statements as laws, and `Memory` is a table in memory that
-- satisfies them.
pub mod Table
pub mod Keys
pub mod Memory
pub mod Owners
