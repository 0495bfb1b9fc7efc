-- ===== src/Utils.antt =====
-- utils: helpers on byte buffers, and the fields of ids.
pub mod Buffer
pub mod Hash
pub mod Ids
