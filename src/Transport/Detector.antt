-- ===== src/Transport/Detector.antt =====
-- rdm_dmx_async/transport/protocol_detector.py.
use rdm_dmx_async.Base.{
  ◌+◌, ◌*◌, ◌≡◌, ◌≤◌, ◌∙◌, sym, ok-injective, ok, arith, ltb, ◌==◌, ◌||◌, false, Bool,
  if◌then◌else◌, length, get_or, ◌++◌,
}
use rdm_dmx_async.Base.Words.{Bytes, to_bytes}
use rdm_dmx_async.Packets.Types.{Pid}
use rdm_dmx_async.Packets.Rdm.{RdmRequest}
use rdm_dmx_async.Packets.Encoder.{
  IsEncodable, encode_rdm_request, calculate_checksum, header, encode-eq-header,
}

-- `pid in (DISC_UNIQUE_BRANCH_PID, DISC_MUTE_PID, DISC_UN_MUTE_PID)`
unfoldable pub is_discovery_pid : Pid → Bool
is_discovery_pid pid = pid == 0x0001 || pid == 0x0002 || pid == 0x0003

-- `(hi << 8) | lo` is a sum, since `lo` is a byte.
unfoldable pub is_discovery_packet : Bytes → Bool
unfolding is_discovery_pid
is_discovery_packet bs =
    if ltb (length bs) (21 + 2)
    then false
    else is_discovery_pid (get_or bs 21 0 * 256 + get_or bs 22 0)

module _ (r : RdmRequest) (checksum : Bytes) where
  long_enough : ltb (length ((header r ++ r.payload) ++ checksum)) 23 ≡ false
  unfolding to_bytes
  long_enough = ground arith

  pid_read :
      r.pid ≤ 65535
      → get_or ((header r ++ r.payload) ++ checksum) 21 0 * 256
          + get_or ((header r ++ r.payload) ++ checksum) 22 0
        ≡ r.pid
  unfolding to_bytes
  pid_read h = omega arith

-- Of an encoded request the detector finds the parameter: it is a discovery packet exactly if its
-- PID is one of the three discovery PIDs.
pub is_discovery_packet-encode :
    (r : RdmRequest) (p : Bytes)
    → IsEncodable r
    → encode_rdm_request r ≡ ok p
    → is_discovery_packet p ≡ is_discovery_pid r.pid
unfolding is_discovery_packet
is_discovery_packet-encode r p enc e =
    let checksum = to_bytes 2 (calculate_checksum (header r ++ r.payload)) in
    let written : p ≡ (header r ++ r.payload) ++ checksum =
      ok-injective (sym e ∙ encode-eq-header r enc) in
    rw (written, long_enough r checksum, pid_read r checksum enc.pid_fits)
