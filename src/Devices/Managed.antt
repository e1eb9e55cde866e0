-- ===== src/Devices/Managed.antt =====
-- A device over the transaction manager (services/rdm_device.py, transaction/transaction_manager.py).
use rdm_dmx_async.Base.{ℕ}
use rdm_dmx_async.Transaction.Allocator.{Allocator}
use rdm_dmx_async.Transaction.Policy.{RetryPolicy}
use rdm_dmx_async.Transaction.Execute.{Transaction}
use rdm_dmx_async.Transaction.Manager
use rdm_dmx_async.Transaction.Manager.{RdmProtocol}
use rdm_dmx_async.Devices.Device.{TransactionManager}

-- The transaction manager as the devices use it; the world is the allocator.
unfoldable pub manager_of :
    RetryPolicy → RdmProtocol → (Allocator → ℕ) → TransactionManager Allocator
manager_of policy protocol clock = record {
  get = Manager.get policy protocol;
  set = Manager.set policy protocol;
  now = clock;
}
