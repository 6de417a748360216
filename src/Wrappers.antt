-- ===== src/Wrappers.antt =====
-- The wrappers that other languages call: the uniffi one and the one for Node. Both hand texts of JSON to
-- the methods of a handle and return texts.
pub mod Uniffi
pub mod Node
pub mod Agreement
