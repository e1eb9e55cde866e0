-- ===== src/Protocols.antt =====
-- rdm_dmx_async/protocols: validation, discovery decoding, correlation and the E1.20 protocol.
pub mod Validator
pub mod Manchester
pub mod Correlator
pub mod E120
