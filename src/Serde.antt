-- ===== src/Serde.antt =====
-- src/runtime/serde/serdeimpl.rs: the binary formats of the streams.
pub mod Registry
pub mod Bytes
pub mod Order
pub mod Sign
pub mod Reader
pub mod Scalar
pub mod Container
