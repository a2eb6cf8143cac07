-- ===== src/Collections.antt =====
-- `std::collections`, as far as the program uses them.
pub mod HashMap
pub mod HashSet
