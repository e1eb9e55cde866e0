-- ===== src/Application/Collection.antt =====
-- rdm_dmx_async/application/device_collection_manager.py, without its logging.
use rdm_dmx_async.Base.{ℕ, Option, none, some, Bool, true, false, List, [], ◌∷◌, length}
use rdm_dmx_async.Base.Table.{Table, lookup, insert, delete, keys}
use rdm_dmx_async.Packets.Types.{Uid}
use rdm_dmx_async.Devices.Device.{RdmDevice, clear_all_cache}
use rdm_dmx_async.Devices.Repository.{all_of}

pub record DeviceCollectionManager : Type 0 where
  pub devices : Table RdmDevice

unfoldable pub add_device : RdmDevice → DeviceCollectionManager → DeviceCollectionManager
add_device d m = record m { devices = insert d.device_uid d m.devices }

unfoldable pub is_known_device : Option RdmDevice → Bool
is_known_device none = false
is_known_device (some d) = true

unfoldable pub has_device : Uid → DeviceCollectionManager → Bool
unfolding is_known_device
has_device uid m = is_known_device (lookup uid m.devices)

unfoldable pub remove_device : Uid → DeviceCollectionManager → DeviceCollectionManager × Bool
unfolding has_device
remove_device uid m = (record m { devices = delete uid m.devices }, has_device uid m)

unfoldable pub get_device : Uid → DeviceCollectionManager → Option RdmDevice
get_device uid m = lookup uid m.devices

unfoldable pub get_all_devices : DeviceCollectionManager → List RdmDevice
get_all_devices m = all_of m.devices

unfoldable pub get_all_uids : DeviceCollectionManager → List Uid
get_all_uids m = keys m.devices

unfoldable pub get_device_count : DeviceCollectionManager → ℕ
get_device_count m = length m.devices

unfoldable pub clear : DeviceCollectionManager → DeviceCollectionManager
clear m = record m { devices = [] }

unfoldable pub cleared : Table RdmDevice → Table RdmDevice
cleared [] = []
cleared ((uid, d) ∷ rest) = (uid, clear_all_cache d) ∷ cleared rest

unfoldable pub clear_all_caches : DeviceCollectionManager → DeviceCollectionManager
unfolding cleared
clear_all_caches m = record m { devices = cleared m.devices }
