-- ===== src/Rtu/Bus/Silence.antt =====
-- The silence on a bus between transactions, and the time that a response may take.
use modbus_protocol.Prelude.{
  ℕ, ◌+◌, ◌-◌, ◌*◌, ◌/◌, ◌≤◌, ◌<◌, ◌≡◌, ◌≢◌, ◌⊎◌, inl, inr, refl, arith, true, not, ◌&&◌, ltb, leb,
  ◌==◌, if◌then◌else◌, Bool-cases,
}
use modbus_protocol.Rtu.Timing.{parity_bits, rounds_up}
use modbus_protocol.Rtu.Bus.{Bus, Timespec, wait_bus_silence, frame_wire_time_us}

abbrev pub nanoseconds : Timespec → ℕ
nanoseconds t = t.tv_sec * 1000000000 + t.tv_nsec

-- The silence that a transaction needs.
abbrev required : Bus → ℕ → ℕ → ℕ → ℕ
required bus unit_id inter_frame_us handoff_ms =
    if not (bus.last_unit_id == unit_id) && ltb inter_frame_us (handoff_ms * 1000)
    then handoff_ms * 1000
    else inter_frame_us

-- The wait, for the silence that is needed.
abbrev wait_for : ℕ → Timespec → Timespec → ℕ
wait_for required_us last now =
    let later_us = now.tv_sec * 1000000 + (now.tv_nsec - last.tv_nsec) / 1000 in
    let earlier_us = last.tv_sec * 1000000 + (last.tv_nsec - now.tv_nsec) / 1000 in
    if leb earlier_us later_us && ltb (later_us - earlier_us) required_us
    then required_us - (later_us - earlier_us)
    else 0

wait_for_lem :
    (required_us : ℕ) (last now : Timespec)
    → last.tv_nsec < 1000000000
    → now.tv_nsec < 1000000000
    → nanoseconds last ≤ nanoseconds now
    → (required_us * 1000
        < nanoseconds now + wait_for required_us last now * 1000 - nanoseconds last + 1000)
      × (wait_for required_us last now ≤ required_us)
wait_for_lem required_us last now small_last small_now forward = ground arith

wait_for_none :
    (r : ℕ) (last now : Timespec)
    → (if r == 0 then 0 else wait_for r last now) ≡ wait_for r last now
wait_for_none r last now = ground arith

-- On a bus that has had a transaction, with a clock that did not go back and shows less than 10^9
-- nanoseconds beside the seconds: after the wait the line has been silent for T3.5, and for the handoff time if the unit id changes, to the microsecond; and the
-- wait is no longer than the longer of these.
pub wait_bus_silence-IsSilent :
    (bus : Bus) (unit_id inter_frame_us handoff_ms : ℕ) (now : Timespec)
    → bus.has_last_transaction ≡ true
    → bus.last_release_time.tv_nsec < 1000000000
    → now.tv_nsec < 1000000000
    → nanoseconds bus.last_release_time ≤ nanoseconds now
    → let slept = wait_bus_silence bus unit_id inter_frame_us handoff_ms now in
      let silent_ns = nanoseconds now + slept * 1000 - nanoseconds bus.last_release_time in
      (inter_frame_us * 1000 < silent_ns + 1000)
      × (bus.last_unit_id ≢ unit_id → handoff_ms * 1000000 < silent_ns + 1000)
      × ((slept ≤ inter_frame_us) ⊎ (bus.last_unit_id ≢ unit_id) × (slept ≤ handoff_ms * 1000))
unfolding wait_bus_silence
wait_bus_silence-IsSilent bus unit_id inter_frame_us handoff_ms now some' small_last small_now
      forward =
    let waited =
      wait_for_lem (required bus unit_id inter_frame_us handoff_ms) bus.last_release_time now
        small_last small_now forward in
    let need = required bus unit_id inter_frame_us handoff_ms in
    let same : wait_bus_silence bus unit_id inter_frame_us handoff_ms now
        ≡ wait_for need bus.last_release_time now =
      rw some' (wait_for_none need bus.last_release_time now) in
    let enough : (inter_frame_us ≤ need)
        × (bus.last_unit_id ≢ unit_id → handoff_ms * 1000 ≤ need)
        × ((need ≡ inter_frame_us) ⊎ (bus.last_unit_id ≢ unit_id) × (need ≡ handoff_ms * 1000)) =
      (
        ground arith,
        λ other. ground arith,
        elim (Bool-cases
            (not (bus.last_unit_id == unit_id) && ltb inter_frame_us (handoff_ms * 1000))) [
              | inl other ↦ inr (λ e. ground arith, rw other refl)
              | inr usual ↦ inl (rw usual refl)
            ],
      ) in
    rw same (
      omega (arith, enough.0, waited.0),
      λ other. omega (arith, enough.1 other, waited.0),
      elim enough.2 [
        | inl e ↦ inl (omega (arith, e, waited.1))
        | inr (other, e) ↦ inr (other, omega (arith, e, waited.1))
      ],
    )

-- The time in `response_deadline_us` for the response itself is the least number of microseconds in
-- which the line carries that many characters.
pub frame_wire_time_us-IsLeast :
    (bus : Bus) (nbytes : ℕ)
    → 1 ≤ bus.baud_rate
    → let bits = (1 + bus.data_bits + bus.stop_bits + parity_bits bus.parity) * nbytes in
      (bits * 1000000 ≤ frame_wire_time_us bus nbytes * bus.baud_rate)
      × (frame_wire_time_us bus nbytes * bus.baud_rate < bits * 1000000 + bus.baud_rate)
unfolding frame_wire_time_us
frame_wire_time_us-IsLeast bus nbytes set =
    let (reaches, tight, _) =
      rounds_up ((1 + bus.data_bits + bus.stop_bits + parity_bits bus.parity) * nbytes * 1000000)
        bus.baud_rate set in
    (reaches, tight)
