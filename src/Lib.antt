-- ===== src/Lib.antt =====
-- rdm_dmx_async is a controller for RDM (ANSI E1.20) over a DMX line. A command becomes a packet,
-- a transaction sends it with retries, an interface adapter frames it for the serial port, and the
-- bytes that come back are cut into frames and decoded. This library models those parts, one
-- module for each, and proves what they promise one another.
--
-- The files and the code they are about:
-- - Base: Boolean tests, lists, results with exceptions, bytes and words over the native numbers.
--   An exception is a value of Error, named for its class; its text is left out.
-- - Packets: packets/types.py and packets/rdm.py (Types, Rdm), packets/encoder.py (Encoder) and
--   packets/decoder.py (Decoder), all under rdm_dmx_async/ as are the paths that follow. A packet
--   is a list of bytes, packing with struct is written out, and out-of-range values raise as they
--   do there. RoundTrip relates the two directions.
-- - Protocols: protocols/rdm_validator.py (Validator), its guards in the order of the source as a
--   list of conditions with their faults; protocols/manchester_codec.py (Manchester); and
--   protocols/response_correlator.py (Correlator), whose futures are numbers with a state each.
--   protocols/rdm_e120.py (E120): a request holds the wire until its wait ends, so that what the
--   receive loop gets meanwhile is a list of events; how the wait ends without a response, by its
--   timeout or by a cancellation, is a parameter.
-- - Transport: transport/interface_adapter.py (Adapter), a record of functions that
--   transport/adapters/enttec.py (Enttec) and transport/adapters/bare_usb_rs485.py (BareUsb) fill;
--   transport/frame_buffer.py (FrameBuffer), whose section takes any adapter;
--   transport/protocol_detector.py (Detector). What a frame buffer needs of an adapter is the
--   record Delimits of FrameBuffer/Streams, which the theorems about both adapters supply.
-- - Utils: the controller UID of utils.py.
-- - Transaction: transaction/allocator.py (Allocator), transaction/correlator.py (Classifier),
--   transaction/policy.py (Policy), transaction/result.py and transaction/state.py (Outcome), and
--   transaction/async_transaction.py (Execute) and transaction/transaction_manager.py (Manager). The
--   state of a transaction holds the allocator
--   that it shares with others. An awaited call is a parameter numbered by its turn: it gives a
--   response, a timeout or an exception, and the allocator as other tasks left it meanwhile.
-- - Scheduling: scheduling/dmx_scheduler.py, its calls as the steps of a relation (Steps).
-- - Discovery: services/binary_search.py (SearchTree), its nodes under numbers in a store, since
--   they refer to one another both ways; services/discovery_service.py (Service), the search for
--   devices, over any world that the discovery commands change.
-- - Devices: services/rdm_device.py and services/device_apis. Device has the parameter cache and the
--   three kinds of method that the parameter modules have: a cached GET is a Parameter, a GET with
--   arguments a Query, and a SET a Setting, each a constant of Apis named for its method. Pids has
--   the parameter ids of domain/parameters.py, Struct the formats of struct, Text the
--   codecs of Python that they call, Parse
--   what the modules make of a response, Capabilities the supported PIDs, Initialize the first
--   queries, Repository the devices by UID of services/device_repository.py. A device sees its transactions as the record TransactionManager, which
--   transaction/transaction_manager.py fills in Managed.
-- - Application: application/device_collection_manager.py (Collection) and the addressing of all
--   devices of application/batch_operation_service.py (Addresses).
-- - Examples: the theorems at concrete values.
--
-- Loops that the source bounds recurse on its bound: 255 numbers in the allocator, max_attempts
-- and max_ack_timer_polls in a transaction, max_frames in the frame buffer, 7 preamble bytes, 4
-- queries of the widget. The way up the search tree takes the number of the node as its fuel: a node
-- is made after its root, so that fewer nodes lie above it.
--
-- A search for devices with a limit recurses on the limit; one without a limit takes fuel, and of it
-- nothing is claimed.
--
-- Not modelled: logging, timestamps and texts for display; the serial port itself; the clock, of
-- which only the outcome of a wait is kept; the floats of the sensors' scaled values and the raw
-- access to parameters; the batch operations that run at once, the network manager and the command line. A
-- cancellation is followed only in a request of the protocol; in transactions and in the discovery,
-- where it is no Exception in Python, it is left out.
mod Base
pub mod Packets
pub mod Protocols
pub mod Transport
pub mod Utils
pub mod Scheduling
pub mod Discovery
pub mod Examples
pub mod Transaction
pub mod Devices
pub mod Application
