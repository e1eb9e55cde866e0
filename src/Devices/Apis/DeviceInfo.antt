-- ===== src/Devices/Apis/DeviceInfo.antt =====
-- services/device_apis/device_info.py, and the labels of services/rdm_device.py
use rdm_dmx_async.Base.{none}
use rdm_dmx_async.Devices.Pids
use rdm_dmx_async.Devices.Pids.{value}
use rdm_dmx_async.Devices.Device.{Parameter}
use rdm_dmx_async.Devices.Parse.{unchanged, parse_words, number_parameter, string_parameter}

abbrev pub get_model_description : Parameter
get_model_description = string_parameter Pids.device_model_description

abbrev pub get_boot_software_version : Parameter
get_boot_software_version = string_parameter Pids.boot_software_version_label

abbrev pub get_boot_software_version_id : Parameter
get_boot_software_version_id = number_parameter 4 Pids.boot_software_version_id

abbrev pub get_product_detail_id_list : Parameter
get_product_detail_id_list = record {
  pid = Pids.product_detail_id_list;
  parse = parse_words;
  note = unchanged;
  otherwise = none;
}

abbrev pub get_manufacturer_label : Parameter
get_manufacturer_label = string_parameter Pids.manufacturer_label

abbrev pub get_software_version_label : Parameter
get_software_version_label = string_parameter Pids.software_version_label
