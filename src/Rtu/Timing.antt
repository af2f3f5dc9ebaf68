-- ===== src/Rtu/Timing.antt =====
-- Serial timing of src/modbus_rtu.c: the silence of 3.5 characters that separates frames.
use native.Mathlib.Nat.{lt-div-mul-add, div-mul-le_self, div-le_self}
use modbus_protocol.Prelude.{
  false, ℕ, ◌+◌, ◌-◌, ◌*◌, ◌/◌, ◌≤◌, ◌<◌, ◌≡◌, arith, Option, none, some, u32, ltb, ◌==◌,
  if◌then◌else◌,
}

-- `MB_RTU_PARITY_*`
pub data Parity : Type 0 where
  none_parity : Parity
  even : Parity
  odd : Parity

-- The numbers of `mb_rtu_serial_config_t`.
pub record SerialConfig : Type 0 where
  pub baud_rate : ℕ
  pub data_bits : ℕ
  pub stop_bits : ℕ
  pub parity : Parity

unfoldable pub effective_data_bits : ℕ → ℕ
effective_data_bits data_bits = if data_bits == 0 then 8 else data_bits

unfoldable pub effective_stop_bits : ℕ → ℕ
effective_stop_bits stop_bits = if stop_bits == 0 then 1 else stop_bits

abbrev pub parity_bits : Parity → ℕ
parity_bits none_parity = 0
parity_bits even = 1
parity_bits odd = 1

unfoldable pub t35_us : Option SerialConfig → ℕ
t35_us none = 0
t35_us (some serial) =
    let baud_rate = if serial.baud_rate == 0 then 9600 else serial.baud_rate in
    if ltb 19200 baud_rate
    then 1750
    else let char_bits =
        1
        + effective_data_bits serial.data_bits
        + effective_stop_bits serial.stop_bits
        + parity_bits serial.parity in
      u32 ((char_bits * 3500000 + baud_rate - 1) / baud_rate)

abbrev pub timing_disabled : ℕ
timing_disabled = 0xffffffff

unfoldable pub effective_timing : ℕ → ℕ → ℕ
effective_timing configured default_value =
    if configured == timing_disabled
    then 0
    else if configured == 0
    then default_value
    else configured

-- The bits of one character on the line: start, data, parity and stop bits.
abbrev pub character_bits : SerialConfig → ℕ
character_bits serial =
    1
    + effective_data_bits serial.data_bits
    + effective_stop_bits serial.stop_bits
    + parity_bits serial.parity

pub rounds_up :
    (a b : ℕ)
    → 1 ≤ b
    → (a ≤ (a + b - 1) / b * b) × ((a + b - 1) / b * b < a + b) × ((a + b - 1) / b ≤ a + b - 1)
rounds_up a b h =
    let below : a + b - 1 < (a + b - 1) / b * b + b = lt-div-mul-add (omega arith) in
    let above : (a + b - 1) / b * b ≤ a + b - 1 = div-mul-le_self (a + b - 1) b in
    (omega arith, omega arith, div-le_self (a + b - 1) b)

character_bits-bounds :
    (serial : SerialConfig)
    → serial.data_bits < 256
    → serial.stop_bits < 256
    → (3 ≤ character_bits serial) × (character_bits serial ≤ 512)
unfolding effective_data_bits effective_stop_bits
character_bits-bounds serial hd hs =
    let small : parity_bits serial.parity ≤ 1 = parity_bits_small serial.parity in ground arith
  where
    parity_bits_small : (p : Parity) → parity_bits p ≤ 1
    parity_bits_small none_parity = omega arith
    parity_bits_small even = omega arith
    parity_bits_small odd = omega arith

-- Up to 19200 baud, with one-byte numbers of data and stop bits, `mb_rtu_t35_us` is the least
-- number of microseconds in which the line carries 3.5 characters; no wrap-around occurs.
pub t35_us-IsLeast :
    (serial : SerialConfig)
    → 1 ≤ serial.baud_rate
    → serial.baud_rate ≤ 19200
    → serial.data_bits < 256
    → serial.stop_bits < 256
    → (character_bits serial * 3500000 ≤ t35_us (some serial) * serial.baud_rate)
      × (t35_us (some serial) * serial.baud_rate
          < character_bits serial * 3500000 + serial.baud_rate)
unfolding t35_us
t35_us-IsLeast serial lo hi hd hs =
    let (some_bits, few_bits) = character_bits-bounds serial hd hs in
    let work : ℕ = character_bits serial * 3500000 in
    let (reaches, tight, small) = rounds_up work serial.baud_rate lo in
    let fits : u32 ((work + serial.baud_rate - 1) / serial.baud_rate)
        ≡ (work + serial.baud_rate - 1) / serial.baud_rate =
      omega arith in
    let set : (serial.baud_rate == 0) ≡ false = ground arith in
    let slow : ltb 19200 serial.baud_rate ≡ false = ground arith in
    rw (set, slow, fits) (reaches, tight)
