-- ===== src/Devices/Apis/DeviceControl.antt =====
-- services/device_apis/device_control.py
use rdm_dmx_async.Base.{ok, Bool, if◌then◌else◌, [], ◌∷◌}
use rdm_dmx_async.Devices.Pids
use rdm_dmx_async.Devices.Pids.{value}
use rdm_dmx_async.Devices.Device.{clear_all_cache, Setting, sending}
use rdm_dmx_async.Devices.Parse.{set_only}

unfoldable pub identify : Bool → Setting
identify enable = set_only Pids.identify_device (ok ((if enable then 0x01 else 0x00) ∷ []))

unfoldable pub reset : Bool → Setting
reset warm_reset =
    sending Pids.reset_device (ok ((if warm_reset then 0x01 else 0xFF) ∷ [])) clear_all_cache

abbrev pub factory_defaults : Setting
factory_defaults = sending Pids.factory_defaults (ok []) clear_all_cache
