-- ===== src/Storage.antt =====
-- The profile database of a node (kin-node/kin/storage): its tables as lists of rows, and the
-- services outside the repository's own code that the writers use.
pub mod Tables
pub mod Services
