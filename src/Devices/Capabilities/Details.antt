-- ===== src/Devices/Capabilities/Details.antt =====
-- The support of a module against its details (services/rdm_device.py).
use rdm_dmx_async.Base.{
  ◌+◌, ◌≡◌, refl, sym, ap, ap₂, ◌∙◌, some, Bool, true, false, not, ◌||◌, ◌&&◌, ==→eq, ltb,
  if◌then◌else◌, Bool-cases, inl, inr, List, [], ◌∷◌, length, contains, ◌==◌, arith,
}
use rdm_dmx_async.Packets.Types.{Pid}
use rdm_dmx_async.Devices.Device.{RdmDevice}
use rdm_dmx_async.Devices.Capabilities.{
  ApiName, device_label, dmx_config, control, sensors, sensor_definitions, maintenance, info, slots,
  modes, lamp, display, position, power, self_test, presets, system, proxy, raw, api_pids, is_raw,
  values, mandatory_pids, or_empty, supports_pid, supported_count, supports_api, is_known, known_of,
  missing_of, support_by, api_support,
}

-- The capabilities are checked only with a list of PIDs.
abbrev pub IsChecked : RdmDevice → Type 0
IsChecked d =
    d.capabilities_checked ≡ true
    → (pid : Pid) × (pids : List Pid) × (d.supported_pids ≡ some (pid ∷ pids))

supports_pid-known :
    (pid : Pid) (supported : List Pid) (d : RdmDevice)
    → d.capabilities_checked ≡ true
    → d.supported_pids ≡ some supported
    → supports_pid pid d ≡ is_known supported pid
unfolding supports_pid is_known or_empty
supports_pid-known pid supported d checked has =
    rw (checked, has) (either (contains pid supported) (contains pid mandatory_pids))
  where
    either : (a b : Bool) → (if b then true else a) ≡ (a || b)
    either true true = refl
    either true false = refl
    either false true = refl
    either false false = refl

supported_count-known :
    (pids supported : List Pid) (d : RdmDevice)
    → d.capabilities_checked ≡ true
    → d.supported_pids ≡ some supported
    → supported_count pids d ≡ length (known_of supported pids)
unfolding supported_count known_of
supported_count-known [] supported d checked has = refl
supported_count-known (pid ∷ pids) supported d checked has =
    let rest = supported_count-known pids supported d checked has in
    rw (supports_pid-known pid supported d checked has)
      (elim (Bool-cases (is_known supported pid)) [
        | inl known ↦ rw known (omega (arith, rest))
        | inr missing ↦ rw missing (omega (arith, rest))
      ])

-- A module is supported exactly if its details say so, whether the capabilities were checked or not.
pub supports_api-details :
    (api : ApiName) (d : RdmDevice)
    → IsChecked d
    → supports_api (some api) d ≡ (api_support api d).supported
unfolding supports_api api_support
supports_api-details api d checked = elim (Bool-cases (is_raw api)) [
  | inl unnamed ↦ rw unnamed refl
  | inr other ↦ elim (Bool-cases d.capabilities_checked) [
    | inl done ↦
        let (pid, pids, has) = checked done in
        let count = supported_count-known (values (api_pids api)) (pid ∷ pids) d done has in
        rw other (
          simp (done) (ap (ltb 0) count)
          ∙ sym (
              ap₂ (λ b o. (support_by b o (values (api_pids api))).supported) done has
              ∙ (unfold support_by in refl)))
    | inr unknown ↦ rw (other, unknown) (unfold support_by in refl)
  ]
]

never : (a : Bool) → (a && false) ≡ false
never true = refl
never false = refl

-- The elements of a list that pass a test.
split_step :
    (f : Pid → Bool) (pid q : Pid) (qs chosen : List Pid)
    → contains pid chosen ≡ (contains pid qs && f pid)
    → contains pid (if f q then q ∷ chosen else chosen) ≡ (contains pid (q ∷ qs) && f pid)
unfolding contains
split_step f pid q qs chosen rest = elim (Bool-cases (pid == q)) [
  | inl same ↦
      let own : f q ≡ f pid = ap f (sym (==→eq pid q same)) in
      rw (own, same) (here same (f pid) refl)
  | inr other ↦ rw other (there other (f q))
]
  where
    here :
        (pid == q) ≡ true
        → (b : Bool) → f pid ≡ b
        → contains pid (if b then q ∷ chosen else chosen) ≡ b
    here same true e = rw same refl
    here same false e = rest ∙ rw e (never (contains pid qs))

    there :
        (pid == q) ≡ false
        → (b : Bool) → contains pid (if b then q ∷ chosen else chosen) ≡ (contains pid qs && f pid)
    there other true = rw other rest
    there other false = rest

contains-known_of :
    (supported pids : List Pid) (pid : Pid)
    → contains pid (known_of supported pids) ≡ (contains pid pids && is_known supported pid)
unfolding known_of
contains-known_of supported [] pid = unfold contains in refl
contains-known_of supported (q ∷ qs) pid =
    split_step (is_known supported) pid q qs (known_of supported qs)
      (contains-known_of supported qs pid)

contains-missing_of :
    (supported pids : List Pid) (pid : Pid)
    → contains pid (missing_of supported pids) ≡ (contains pid pids && not (is_known supported pid))
unfolding missing_of
contains-missing_of supported [] pid = unfold contains in refl
contains-missing_of supported (q ∷ qs) pid =
    swapped (is_known supported q) _ _
    ∙ split_step (λ k. not (is_known supported k)) pid q qs (missing_of supported qs)
        (contains-missing_of supported qs pid)
  where
    swapped :
        (b : Bool) (x y : List Pid)
        → contains pid (if b then x else y) ≡ contains pid (if not b then y else x)
    swapped true x y = refl
    swapped false x y = refl

length-known-missing :
    (supported pids : List Pid)
    → length (known_of supported pids) + length (missing_of supported pids) ≡ length pids
unfolding known_of missing_of
length-known-missing supported [] = refl
length-known-missing supported (q ∷ qs) = elim (Bool-cases (is_known supported q)) [
  | inl known ↦ rw known (omega (arith, length-known-missing supported qs))
  | inr missing ↦ rw missing (omega (arith, length-known-missing supported qs))
]

-- Each module but the raw one has PIDs.
has_pids : (api : ApiName) → is_raw api ≡ false → ltb 0 (length (values (api_pids api))) ≡ true
unfolding api_pids values is_raw
has_pids device_label named = refl
has_pids dmx_config named = refl
has_pids control named = refl
has_pids sensors named = refl
has_pids sensor_definitions named = refl
has_pids maintenance named = refl
has_pids info named = refl
has_pids slots named = refl
has_pids modes named = refl
has_pids lamp named = refl
has_pids display named = refl
has_pids position named = refl
has_pids power named = refl
has_pids self_test named = refl
has_pids presets named = refl
has_pids system named = refl
has_pids proxy named = refl
has_pids raw named = cc

-- Once the capabilities are checked with a list of PIDs, the details of a module that is not the
-- raw one split the PIDs of the module, each into one of two lists that together are as long: those
-- for which `supports_pid` answers True, and the others. The coverage is the length of the first
-- list over that of all the PIDs.
pub api_support-split :
    (api : ApiName) (d : RdmDevice) (pid p : Pid) (supported : List Pid)
    → is_raw api ≡ false
    → d.capabilities_checked ≡ true
    → d.supported_pids ≡ some (p ∷ supported)
    → (contains pid (api_support api d).supported_pids
        ≡ (contains pid (values (api_pids api)) && supports_pid pid d))
      × (contains pid (api_support api d).missing_pids
          ≡ (contains pid (values (api_pids api)) && not (supports_pid pid d)))
      × (length (api_support api d).supported_pids + length (api_support api d).missing_pids
          ≡ length (values (api_pids api)))
      × ((api_support api d).coverage
          ≡ (length (api_support api d).supported_pids, length (values (api_pids api))))
unfolding api_support support_by
api_support-split api d pid p supported named checked has =
    rw (supports_pid-known pid (p ∷ supported) d checked has, named, checked, has)
      (
        contains-known_of (p ∷ supported) (values (api_pids api)) pid,
        contains-missing_of (p ∷ supported) (values (api_pids api)) pid,
        length-known-missing (p ∷ supported) (values (api_pids api)),
        rw (has_pids api named) refl,
      )
