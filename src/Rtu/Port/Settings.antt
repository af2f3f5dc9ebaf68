-- ===== src/Rtu/Port/Settings.antt =====
-- The line that src/modbus_rtu.c configures carries the characters that its timing is about.
use modbus_protocol.Prelude.{
  ℕ, ℤ, pos, negsuc, ◌+◌, ◌≡◌, ◌≢◌, ◌⊎◌, Bool, true, false, Option, none, some, if◌then◌else◌,
}
use modbus_protocol.Rtu.Timing.{
  none_parity, even, odd, SerialConfig, effective_data_bits, effective_stop_bits, character_bits,
}
use modbus_protocol.Rtu.Bus.{effective_baud_rate}
use modbus_protocol.Rtu.Port.{baud_to_speed, Termios}

-- The bits of one character on a line with these options.
abbrev pub line_bits : Termios → ℕ
line_bits o =
    1 + (if o.cs7 then 7 else 8) + (if o.cstopb then 2 else 1) + (if o.parenb then 1 else 0)

-- Settings that no port can be given.
abbrev pub CannotBe : SerialConfig → Type 0
CannotBe serial =
    (baud_to_speed serial.baud_rate ≡ 0)
    ⊎ ((effective_data_bits serial.data_bits ≢ 7) × (effective_data_bits serial.data_bits ≢ 8))
    ⊎ ((effective_stop_bits serial.stop_bits ≢ 1) × (effective_stop_bits serial.stop_bits ≢ 2))

-- A port is left alone, for a reason, or it has the speed and the characters of its settings.
pub data Configures (attributes_set : Bool) (serial : SerialConfig)
    : ℤ × Option Termios → Type 0 where
  left_alone :
      CannotBe serial ⊎ (attributes_set ≡ false) → Configures attributes_set serial (negsuc 0, none)
  configured :
      (o : Termios)
      → o.speed ≡ effective_baud_rate serial.baud_rate
      → line_bits o ≡ character_bits serial
      → (if o.cs7 then 7 else 8) ≡ effective_data_bits serial.data_bits
      → (if o.cstopb then 2 else 1) ≡ effective_stop_bits serial.stop_bits
      → (o.parenb ≡ false → serial.parity ≡ none_parity)
      → (o.parenb ≡ true → o.parodd ≡ true → serial.parity ≡ odd)
      → (o.parenb ≡ true → o.parodd ≡ false → serial.parity ≡ even)
      → Configures attributes_set serial (pos 0, some o)
