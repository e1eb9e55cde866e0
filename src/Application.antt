-- ===== src/Application.antt =====
-- The services over a collection of devices (rdm_dmx_async/application).
pub mod Collection
pub mod Addresses
