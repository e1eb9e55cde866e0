-- ===== src/Transport.antt =====
-- rdm_dmx_async/transport: interface adapters, frame buffer, packet detection, serial transport.
pub mod Adapter
pub mod Detector
pub mod Enttec
pub mod FrameBuffer
pub mod BareUsb
