-- ===== src/Wire.antt =====
-- src/wire.rs: the requests that reach the daemon. `Digest` is the hexadecimal digest, `Manifest`
-- the flash upload, `Requests` the other requests; `Upload` and `Admission` hold proofs.
pub mod Digest
pub mod Manifest
pub mod Requests
pub mod ReadFlash
pub mod EraseFlash
pub mod SerialWrite
pub mod AppRequest
pub mod Admission
pub mod Host
pub mod Upload
