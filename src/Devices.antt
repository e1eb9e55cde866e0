-- ===== src/Devices.antt =====
-- The devices: their parameters, their cache, and the parameter modules of a device
-- (rdm_dmx_async/services/rdm_device.py, rdm_dmx_async/services/device_apis).
pub mod Pids
pub mod Text
pub mod Struct
pub mod Device
pub mod Parse
pub mod Apis
pub mod Capabilities
pub mod Initialize
pub mod Written
pub mod Managed
pub mod Repository
