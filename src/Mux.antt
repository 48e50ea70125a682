-- ===== src/Mux.antt =====
-- src/mux.rs: bounded serial framing. `Frame::encode` and `Frame::decode` are here, the stream
-- decoder is in Mux/Decoder, the checksum in Mux/Crc; the other children hold proofs.
pub mod Crc
pub mod Frame
pub mod Decoder
pub mod RoundTrip
pub mod Invariant
pub mod Stream
pub mod Reports
pub mod Sound
pub mod Chunks
