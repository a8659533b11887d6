-- ===== src/Persistence.antt =====
-- What the repositories of infrastructure/persistence share: the order of their listings, and
-- pages with a cursor.
pub mod Order
pub mod Sorting
pub mod Pages
