-- ===== src/Packets.antt =====
-- rdm_dmx_async/packets: the data of RDM packets, their encoder and decoder.
pub mod Types
pub mod Rdm
pub mod Encoder
pub mod Decoder
pub mod RoundTrip
