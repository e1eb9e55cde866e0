-- ===== src/Examples/Services.antt =====
-- The scheduler's universe and the correlator's futures on concrete calls.
use rdm_dmx_async.Base.{
  ℕ, ◌==◌, ◌+◌, ◌-◌, ◌≡◌, refl, min, ok, true, false, leb, ltb, ◌&&◌, if◌then◌else◌, [], ◌∷◌,
  length, length-replicate, get_or, take, arith,
}
use rdm_dmx_async.Base.Table.{lookup}
use rdm_dmx_async.Scheduling.{DmxFrameScheduler, start, set_dmx_data, get_dmx_data}
use rdm_dmx_async.Scheduling.Slots.{set_dmx_data-slot, get_dmx_data-set_dmx_data}
use rdm_dmx_async.Protocols.Correlator.{
  ResponseCorrelator, FutureState, pending, cancelled, resolved, is_done, register_free,
  register_handler, correlate_response, unregister_handler,
}
use rdm_dmx_async.Protocols.Correlator.Handlers.{
  correlate_response-unregister_handler, correlate_response-register_handler,
}
use rdm_dmx_async.Protocols.Correlator.Futures.{
  here, later, correlates, stops, Settled, Steps-Settled,
}
use rdm_dmx_async.Examples.Protocols.{done}
use rdm_dmx_async.Scheduling
use rdm_dmx_async.Protocols.Correlator

abbrev dark : DmxFrameScheduler
dark = rdm_dmx_async.Scheduling.initial

-- Three values from slot 511 on: the third has no slot.
set_dmx_data-slot_example :
    ((set_dmx_data 511 (7 ∷ 8 ∷ 9 ∷ []) dark).1 ≡ ok tt)
    × (length (set_dmx_data 511 (7 ∷ 8 ∷ 9 ∷ []) dark).0.current_frame ≡ 512)
    × (get_or (set_dmx_data 511 (7 ∷ 8 ∷ 9 ∷ []) dark).0.current_frame 511 0 ≡ (
        if leb (511 - 1) 511 && ltb 511 (511 - 1 + 3)
        then get_or (7 ∷ 8 ∷ 9 ∷ []) (511 - (511 - 1)) 0
        else get_or dark.current_frame 511 0))
set_dmx_data-slot_example =
    set_dmx_data-slot 511 (7 ∷ 8 ∷ 9 ∷ []) dark 511 (omega arith, omega arith)
      (length-replicate {A = ℕ} 512 0) (omega arith)

get_dmx_data-set_dmx_data_example :
    get_dmx_data 511 3 (set_dmx_data 511 (7 ∷ 8 ∷ 9 ∷ []) dark).0
    ≡ ok (take (min 3 (513 - 511)) (7 ∷ 8 ∷ 9 ∷ []))
get_dmx_data-set_dmx_data_example =
    get_dmx_data-set_dmx_data 511 (7 ∷ 8 ∷ 9 ∷ []) dark (omega arith, omega arith)
      (length-replicate {A = ℕ} 512 0)

abbrev running : DmxFrameScheduler
running = start dark

abbrev idle : ResponseCorrelator
idle = rdm_dmx_async.Protocols.Correlator.initial 30

correlate_response-unregister_handler_example :
    correlate_response done (unregister_handler 17 idle) ≡ (unregister_handler 17 idle, false)
correlate_response-unregister_handler_example = correlate_response-unregister_handler idle done

abbrev waiting : ResponseCorrelator
waiting = (register_handler 17 5 idle).0

correlate_response-register_handler_example :
    ((correlate_response done waiting).1 ≡ true)
    × ((correlate_response done waiting).0.futures 0 ≡ resolved done)
    × (correlate_response done (correlate_response done waiting).0
        ≡ ((correlate_response done waiting).0, false))
unfolding register_handler register_free lookup
correlate_response-register_handler_example =
    correlate_response-register_handler idle waiting 5 0 done done refl refl

-- The first of two futures was cancelled; a response comes, and the correlator stops.
abbrev half_cancelled : ResponseCorrelator
half_cancelled = record waiting { futures = λ j. if j == 0 then cancelled else pending }

Steps-Settled_example :
    Settled 0 cancelled
      (rdm_dmx_async.Protocols.Correlator.stop (correlate_response done half_cancelled).0)
unfolding is_done register_handler register_free lookup
Steps-Settled_example =
    Steps-Settled 0 cancelled half_cancelled
      (rdm_dmx_async.Protocols.Correlator.stop (correlate_response done half_cancelled).0) refl
      (omega arith, refl) (later (later here (correlates done)) stops)
