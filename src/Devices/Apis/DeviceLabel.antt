-- ===== src/Devices/Apis/DeviceLabel.antt =====
-- services/device_apis/device_label.py
use rdm_dmx_async.Base.{Result, ok, err, take}
use rdm_dmx_async.Base.Words.{Bytes}
use rdm_dmx_async.Devices.Pids
use rdm_dmx_async.Devices.Pids.{value}
use rdm_dmx_async.Devices.Text.{Text, encode_utf8}
use rdm_dmx_async.Devices.Device.{RdmDevice, clear_cache, Parameter, Setting, sending}
use rdm_dmx_async.Devices.Parse.{string_parameter}

abbrev pub get : Parameter
get = string_parameter Pids.device_label

abbrev pub label_set : Text → RdmDevice → RdmDevice
label_set label d =
    clear_cache (value Pids.device_label)
      (let s = d.state in record d { state = record s { device_label = label } })

-- `label.encode("utf-8")[:32]`
unfoldable pub shortened : Result Bytes → Result Bytes
shortened (err e) = err e
shortened (ok bs) = ok (take 32 bs)

unfoldable pub set : Text → Setting
unfolding shortened
set label = sending Pids.device_label (shortened (encode_utf8 label)) (label_set label)
