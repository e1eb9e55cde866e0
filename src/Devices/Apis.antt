-- ===== src/Devices/Apis.antt =====
-- The parameter modules of a device, one per file of rdm_dmx_async/services/device_apis. A cached GET
-- is a Parameter, a GET with arguments a Query, and a SET a Setting.
pub mod DeviceControl
pub mod DeviceInfo
pub mod DeviceLabel
pub mod DeviceMaintenance
pub mod DisplaySettings
pub mod DmxConfig
pub mod DmxModes
pub mod DmxSlots
pub mod LampControl
pub mod PositionConfig
pub mod PowerControl
pub mod PresetControl
pub mod Proxy
pub mod SelfTest
pub mod SystemInfo
