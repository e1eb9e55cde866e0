-- ===== src/Scheduling/Slots.antt =====
-- What is in each slot of the universe (scheduling/dmx_scheduler.py).
use rdm_dmx_async.Base.{
  ℕ, ◌+◌, ◌-◌, ◌≤◌, ◌<◌, ◌≡◌, refl, ◌∙◌, ap, min, ok, true, ◌&&◌, ltb, leb, if◌then◌else◌, length,
  take, drop, slice, get_or, ◌++◌, arith, length-append, length-take, length-drop,
  take-append_prefix, drop-append_prefix, le→leb, lt→ltb, ge→ltb, gt→leb, ltb→lt, Bool-cases, inl,
  inr,
}
use rdm_dmx_async.Base.Slices.{get_or-append, get_or-take, get_or-drop}
use rdm_dmx_async.Base.Words.{Bytes}
use rdm_dmx_async.Scheduling.{
  DmxFrameScheduler, is_address, assign_slice, set_dmx_data, get_dmx_data,
}

abbrev pub IsAddress : ℕ → Type 0
IsAddress a = (1 ≤ a) × (a ≤ 512)

is_address-IsAddress : (a : ℕ) → IsAddress a → is_address a ≡ true
unfolding is_address
is_address-IsAddress a h = ground arith

module _ (a : ℕ) (values frame : Bytes) (valid : IsAddress a) (full : length frame ≡ 512) where
  abbrev end : ℕ
  end = min (a + length values) 513

  length-written : length (take (end - a) values) ≡ end - a
  length-written = omega (arith, length-take (end - a) values)

  length-before : length (take (a - 1) frame) ≡ a - 1
  length-before = omega (arith, length-take (a - 1) frame)

  length-after : length (drop (end - 1) frame) ≡ 512 - (end - 1)
  length-after = omega (arith, length-drop (end - 1) frame)

  pub length-assign_slice :
      length (assign_slice (a - 1) (end - 1) (take (end - a) values) frame) ≡ 512
  length-assign_slice = omega (
    arith,
    length-before,
    length-written,
    length-after,
    length-append (take (a - 1) frame) (take (end - a) values ++ drop (end - 1) frame),
    length-append (take (end - a) values) (drop (end - 1) frame),
  )

  abbrev written : Bytes
  written = assign_slice (a - 1) (end - 1) (take (end - a) values) frame

  slot-before : (i : ℕ) → i < a - 1 → get_or written i 0 ≡ get_or frame i 0
  slot-before i h =
      get_or-append 0 (take (a - 1) frame) (take (end - a) values ++ drop (end - 1) frame) i
      ∙ rw (length-before, lt→ltb i (a - 1) h) (get_or-take 0 (a - 1) i frame h)

  slot-within :
      (i : ℕ) → a - 1 ≤ i → i < end - 1 → get_or written i 0 ≡ get_or values (i - (a - 1)) 0
  slot-within i h k =
      get_or-append 0 (take (a - 1) frame) (take (end - a) values ++ drop (end - 1) frame) i
      ∙ rw (length-before, ge→ltb i (a - 1) h)
          (get_or-append 0 (take (end - a) values) (drop (end - 1) frame) (i - (a - 1))
            ∙ rw (length-written, lt→ltb (i - (a - 1)) (end - a) (omega arith))
                (get_or-take 0 (end - a) (i - (a - 1)) values (omega arith)))

  slot-after : (i : ℕ) → end - 1 ≤ i → get_or written i 0 ≡ get_or frame i 0
  slot-after i h =
      get_or-append 0 (take (a - 1) frame) (take (end - a) values ++ drop (end - 1) frame) i
      ∙ rw (length-before, ge→ltb i (a - 1) (omega arith))
          (get_or-append 0 (take (end - a) values) (drop (end - 1) frame) (i - (a - 1))
            ∙ rw (length-written, ge→ltb (i - (a - 1)) (end - a) (omega arith))
                (get_or-drop 0 (end - 1) (i - (a - 1) - (end - a)) frame
                  ∙ ap (λ (n : ℕ). get_or frame n 0) (omega arith)))

  -- The slot at `i` after a write: the value written there, or what was there before.
  abbrev pub slot_after_write : ℕ → ℕ
  slot_after_write i =
      if leb (a - 1) i && ltb i (a - 1 + length values)
      then get_or values (i - (a - 1)) 0
      else get_or frame i 0

  pub slot-assign_slice : (i : ℕ) → i < 512 → get_or written i 0 ≡ slot_after_write i
  slot-assign_slice i h = elim (Bool-cases (ltb i (a - 1))) [
    | inl low ↦ rw (gt→leb (a - 1) i (ltb→lt i (a - 1) low)) (slot-before i (ltb→lt i (a - 1) low))
    | inr from ↦ elim (Bool-cases (ltb i (a - 1 + length values))) [
      | inl inside ↦
          let low : a - 1 ≤ i = ground arith in
          let high : i < a - 1 + length values = ltb→lt i (a - 1 + length values) inside in
          rw (le→leb (a - 1) i low, inside) (slot-within i low (omega arith))
      | inr beyond ↦
          let low : a - 1 ≤ i = ground arith in
          let high : a - 1 + length values ≤ i = ground arith in
          rw (le→leb (a - 1) i low, beyond) (slot-after i (omega arith))
    ]
  ]

  read-written : slice (a - 1) (end - 1) written ≡ take (min (length values) (513 - a)) values
  read-written =
      rw
        (drop-append_prefix (a - 1) (take (a - 1) frame)
          (take (end - a) values ++ drop (end - 1) frame) length-before)
        (take-append_prefix (end - 1 - (a - 1)) (take (end - a) values) (drop (end - 1) frame)
            (omega (arith, length-written))
          ∙ ap (λ (n : ℕ). take n values) (omega arith))

-- Of a full universe, a write at a valid address leaves a full universe, in which each slot from
-- the address on has the value written to it, as far as there is one, and every other slot is as
-- it was; values beyond slot 512 are dropped.
pub set_dmx_data-slot :
    (a : ℕ) (values : Bytes) (s : DmxFrameScheduler) (i : ℕ)
    → IsAddress a
    → length s.current_frame ≡ 512
    → i < 512
    → ((set_dmx_data a values s).1 ≡ ok tt)
      × (length (set_dmx_data a values s).0.current_frame ≡ 512)
      × (get_or (set_dmx_data a values s).0.current_frame i 0 ≡ (
          if leb (a - 1) i && ltb i (a - 1 + length values)
          then get_or values (i - (a - 1)) 0
          else get_or s.current_frame i 0))
unfolding set_dmx_data
set_dmx_data-slot a values s i valid full h = rw (is_address-IsAddress a valid) (
  refl,
  length-assign_slice a values s.current_frame valid full,
  slot-assign_slice a values s.current_frame valid full i h,
)

-- Reading back what was just written, at the same address and length, gives the values written, up
-- to slot 512.
pub get_dmx_data-set_dmx_data :
    (a : ℕ) (values : Bytes) (s : DmxFrameScheduler)
    → IsAddress a
    → length s.current_frame ≡ 512
    → get_dmx_data a (length values) (set_dmx_data a values s).0
      ≡ ok (take (min (length values) (513 - a)) values)
unfolding set_dmx_data get_dmx_data
get_dmx_data-set_dmx_data a values s valid full =
    rw (is_address-IsAddress a valid) (ap ok (read-written a values s.current_frame valid full))
