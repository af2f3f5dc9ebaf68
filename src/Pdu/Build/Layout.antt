-- ===== src/Pdu/Build/Layout.antt =====
-- Where the fields of a built request lie.
use modbus_protocol.Prelude.{ℕ, ◌*◌, ◌≤◌, ◌<◌, ◌≡◌, inl, ◌∙◌, arith, Buf, store, IsU16}
use modbus_protocol.Pdu.Wire.{get_u16, put_u16, bit_byte_count}
use modbus_protocol.Pdu.Wire.Words.{get_u16-put_u16, put_registers_outside, get_u16-Agree}
use modbus_protocol.Pdu.Wire.Packing.{pack_bits_outside}
use modbus_protocol.Pdu.Build.{build_read, build_write_registers, build_write_coils}

-- The three fields that every request has.
pub record HasHead (p : Buf) (fc addr qty : ℕ) : Type 0 where
  pub function : p 0 ≡ fc
  pub address : get_u16 p 1 ≡ addr
  pub quantity : get_u16 p 3 ≡ qty

pub build_read-HasHead :
    (pdu : Buf) (fc addr qty : ℕ)
    → IsU16 addr
    → IsU16 qty
    → HasHead (build_read pdu fc addr qty).bytes fc addr qty
unfolding build_read
build_read-HasHead pdu fc addr qty ha hq =
    let first = put_u16 (store pdu 0 fc) 1 addr in
    record {
      function = unfold put_u16 in ground arith;
      address =
          get_u16-Agree 3 1 (put_u16 first 3 qty) first (λ j lt. unfold put_u16 in ground arith)
            (omega arith)
          ∙ get_u16-put_u16 (store pdu 0 fc) 1 addr ha;
      quantity = get_u16-put_u16 first 3 qty hq;
    }

-- A head is kept by whatever writes from byte 5 on.
pub HasHead-kept :
    {p q : Buf} {fc addr qty : ℕ}
    → HasHead p fc addr qty
    → ((j : ℕ) → j < 5 → q j ≡ p j)
    → HasHead q fc addr qty
HasHead-kept {p} {q} head same = record {
  function = same 0 (omega arith) ∙ head.function;
  address = get_u16-Agree 5 1 q p same (omega arith) ∙ head.address;
  quantity = get_u16-Agree 5 3 q p same (omega arith) ∙ head.quantity;
}

pub build_write_registers-HasHead :
    (pdu : Buf) (addr qty : ℕ) (values : Buf)
    → IsU16 addr
    → IsU16 qty
    → HasHead (build_write_registers pdu addr qty values).bytes 16 addr qty
unfolding build_write_registers
build_write_registers-HasHead pdu addr qty values ha hq =
    HasHead-kept (build_read-HasHead pdu 16 addr qty ha hq)
      λ j lt. put_registers_outside qty 0 values _ 6 j (inl (omega arith)) ∙ ground arith

pub build_write_coils-HasHead :
    (pdu : Buf) (addr qty : ℕ) (values : Buf)
    → IsU16 addr
    → IsU16 qty
    → HasHead (build_write_coils pdu addr qty values).bytes 15 addr qty
unfolding build_write_coils
build_write_coils-HasHead pdu addr qty values ha hq =
    HasHead-kept (build_read-HasHead pdu 15 addr qty ha hq)
      λ j lt. pack_bits_outside values qty _ 6 j (inl (omega arith)) ∙ ground arith

pub build_write_registers_count :
    (pdu : Buf) (addr qty : ℕ) (values : Buf)
    → qty ≤ 127
    → (build_write_registers pdu addr qty values).bytes 5 ≡ qty * 2
unfolding build_write_registers
build_write_registers_count pdu addr qty values h =
    put_registers_outside qty 0 values _ 6 5 (inl (omega arith)) ∙ omega arith

pub build_write_coils_count :
    (pdu : Buf) (addr qty : ℕ) (values : Buf)
    → qty ≤ 2040
    → (build_write_coils pdu addr qty values).bytes 5 ≡ bit_byte_count qty
unfolding build_write_coils bit_byte_count
build_write_coils_count pdu addr qty values h =
    pack_bits_outside values qty _ 6 5 (inl (omega arith)) ∙ omega arith
