-- ===== src/Hid/Command/Encoded.antt =====
-- The bytes of a command, and that they are written exactly where the buffer has room for them.
use embedded_services.Base.{
  dec_le, ℕ, ◌+◌, ◌-◌, ◌%◌, ◌^◌, ◌≤◌, ◌<◌, ◌≡◌, refl, true, false, Option, none, some, List, [],
  ◌∷◌, ◌++◌, ok, err, length, length-append, arith, ltb, leb, if◌then◌else◌, inl, inr, ◌⊎◌,
  Bool-cases,
}
use embedded_services.Hid.Error.{invalid_size}
use embedded_services.Hid.Opcode
use embedded_services.Hid.Opcode.{
  ReportType, word_of_opcode, word_of_power_state, word_of_report_freq, word_of_protocol,
  extended_report_id,
}
use embedded_services.Hid.Command.{
  Command, reset, get_protocol, vendor, get_report, set_report, get_idle, set_idle, set_protocol,
  set_power, to_le_bytes, Encoder, ◌then◌, put, type_bits, encode_common, encode_basic_op,
  encode_register, encode_value, encode_data, encode_operation, encode_into_slice,
}

-- An encoder that writes these bytes wherever they fit, and otherwise reports the size of a buffer.
pub record Writes (e : Encoder) (bs : List ℕ) : Type 0 where
  pub fits : (room : ℕ) → length bs ≤ room → e room ≡ ok bs
  pub full : (room : ℕ) → room < length bs → (n : ℕ) × (m : ℕ) × (e room ≡ err (invalid_size n m))

put-Writes : (bs : List ℕ) → Writes (put bs) bs
put-Writes bs = record {
  fits = λ room h. let k : ltb room (length bs) ≡ false = ground (arith, h) in rw k refl;
  full = λ room h.
      let k : ltb room (length bs) ≡ true = ground (arith, h) in (length bs, room, rw k refl);
}

then-Writes :
    (p q : Encoder) (bs cs : List ℕ) → Writes p bs → Writes q cs → Writes (p then q) (bs ++ cs)
then-Writes p q bs cs f g =
    let n = length-append bs cs in
    record {
      fits = λ room h.
          rw (f.fits room (omega (arith, h, n)), g.fits (room - length bs) (omega (arith, h, n)))
            refl;
      full = λ room h. elim (dec_le (length bs) room) [
        | yes k ↦
            let r = g.full (room - length bs) (omega (arith, h, n, k)) in
            (r.0, r.1, rw (f.fits room k, r.2) refl)
        | no k ↦ let r = f.full room (omega (arith, k)) in (r.0, r.1, rw (r.2) refl)
      ];
    }

-- The word of a command with a report identifier, and the identifier behind it where it does not fit.
abbrev pub common_word : Opcode.Opcode → Option ReportType → ℕ → ℕ
common_word opcode t id =
    word_of_opcode opcode
    + type_bits t
    + (if leb extended_report_id id then extended_report_id else id)

abbrev pub id_bytes : ℕ → List ℕ
id_bytes id = if leb extended_report_id id then id ∷ [] else []

abbrev pub common_bytes : Opcode.Opcode → Option ReportType → ℕ → List ℕ
common_bytes opcode t id = to_le_bytes (common_word opcode t id) ++ id_bytes id

abbrev pub register_bytes : Option ℕ → List ℕ
register_bytes (some reg) = to_le_bytes reg
register_bytes none = []

abbrev pub basic_bytes : Opcode.Opcode → List ℕ
basic_bytes opcode = to_le_bytes (word_of_opcode opcode)

abbrev pub value_bytes : ℕ → List ℕ
value_bytes value = to_le_bytes 4 ++ to_le_bytes value

abbrev pub data_bytes : List ℕ → List ℕ
data_bytes bytes = to_le_bytes (length bytes + 2) ++ bytes

abbrev pub operation_bytes : Command → Option ℕ → List ℕ
operation_bytes reset reg = basic_bytes Opcode.reset
operation_bytes (get_report t id size) reg =
    common_bytes Opcode.get_report (some t) id ++ register_bytes reg
operation_bytes (set_report t id (some bytes)) reg =
    common_bytes Opcode.set_report (some t) id ++ (register_bytes reg ++ data_bytes bytes)
operation_bytes (set_report t id none) reg = []
operation_bytes (get_idle id) reg = common_bytes Opcode.get_idle none id ++ register_bytes reg
operation_bytes (set_idle id freq) reg =
    common_bytes Opcode.set_idle none id
    ++ (register_bytes reg ++ value_bytes (word_of_report_freq freq))
operation_bytes get_protocol reg = basic_bytes Opcode.get_protocol ++ register_bytes reg
operation_bytes (set_protocol p) reg =
    basic_bytes Opcode.set_protocol ++ (register_bytes reg ++ value_bytes (word_of_protocol p))
operation_bytes (set_power s) reg =
    to_le_bytes (word_of_opcode Opcode.set_power + word_of_power_state s)
operation_bytes vendor reg = basic_bytes Opcode.vendor

-- The data of a report can be borrowed, and their length, with its own two bytes, is a u16.
abbrev pub HasData : Command → Type 0
HasData (set_report t id (some bytes)) = length bytes + 2 < 2 ^ 16
HasData (set_report t id none) = ⊥
HasData _ = Unit

encode_common-Writes :
    (opcode : Opcode.Opcode) (t : Option ReportType) (id : ℕ)
    → Writes (encode_common opcode t id) (common_bytes opcode t id)
unfolding encode_common
encode_common-Writes opcode t id =
    let val = word_of_opcode opcode + type_bits t in
    elim (Bool-cases (leb extended_report_id id)) [
      | inl e ↦ rw e (put-Writes (to_le_bytes (val + extended_report_id) ++ (id ∷ [])))
      | inr e ↦ rw e (put-Writes (to_le_bytes (val + id)))
    ]

encode_register-Writes : (reg : Option ℕ) → Writes (encode_register reg) (register_bytes reg)
unfolding encode_register
encode_register-Writes (some reg) = put-Writes (to_le_bytes reg)
encode_register-Writes none = record {
  fits = λ room h. refl;
  full = λ room h. absurd (omega (arith, h));
}

encode_basic_op-Writes :
    (opcode : Opcode.Opcode) → Writes (encode_basic_op opcode) (basic_bytes opcode)
unfolding encode_basic_op
encode_basic_op-Writes opcode = put-Writes (basic_bytes opcode)

encode_value-Writes : (value : ℕ) → Writes (encode_value value) (value_bytes value)
unfolding encode_value
encode_value-Writes value = put-Writes (value_bytes value)

encode_data-Writes :
    (bytes : List ℕ) → length bytes + 2 < 2 ^ 16 → Writes (encode_data bytes) (data_bytes bytes)
unfolding encode_data
encode_data-Writes bytes h =
    let e : (length bytes + 2) % 2 ^ 16 ≡ length bytes + 2 = omega (arith, h) in
    rw e (put-Writes (data_bytes bytes))

-- A register and a value behind something else.
with_register :
    (p : Encoder) (bs : List ℕ) (reg : Option ℕ)
    → Writes p bs
    → Writes (p then encode_register reg) (bs ++ register_bytes reg)
with_register p bs reg f =
    then-Writes p (encode_register reg) bs (register_bytes reg) f (encode_register-Writes reg)

with_register_and :
    (p q : Encoder) (bs cs : List ℕ) (reg : Option ℕ)
    → Writes p bs
    → Writes q cs
    → Writes (p then encode_register reg then q) (bs ++ (register_bytes reg ++ cs))
with_register_and p q bs cs reg f g =
    then-Writes p (encode_register reg then q) bs (register_bytes reg ++ cs) f
      (then-Writes (encode_register reg) q (register_bytes reg) cs (encode_register-Writes reg) g)

encode_operation-Writes :
    (c : Command) (reg : Option ℕ)
    → HasData c
    → Writes (encode_operation c reg) (operation_bytes c reg)
unfolding encode_operation
encode_operation-Writes reset reg h = encode_basic_op-Writes Opcode.reset
encode_operation-Writes (get_report t id size) reg h =
    with_register _ _ reg (encode_common-Writes Opcode.get_report (some t) id)
encode_operation-Writes (set_report t id (some bytes)) reg h =
    with_register_and _ _ _ _ reg (encode_common-Writes Opcode.set_report (some t) id)
      (encode_data-Writes bytes h)
encode_operation-Writes (set_report t id none) reg h = absurd h
encode_operation-Writes (get_idle id) reg h =
    with_register _ _ reg (encode_common-Writes Opcode.get_idle none id)
encode_operation-Writes (set_idle id freq) reg h =
    with_register_and _ _ _ _ reg (encode_common-Writes Opcode.set_idle none id)
      (encode_value-Writes (word_of_report_freq freq))
encode_operation-Writes get_protocol reg h =
    with_register _ _ reg (encode_basic_op-Writes Opcode.get_protocol)
encode_operation-Writes (set_protocol p) reg h =
    with_register_and _ _ _ _ reg (encode_basic_op-Writes Opcode.set_protocol)
      (encode_value-Writes (word_of_protocol p))
encode_operation-Writes (set_power s) reg h =
    put-Writes (to_le_bytes (word_of_opcode Opcode.set_power + word_of_power_state s))
encode_operation-Writes vendor reg h = encode_basic_op-Writes Opcode.vendor

abbrev pub command_bytes : Command → Option ℕ → Option ℕ → List ℕ
command_bytes c command_reg data_reg = register_bytes command_reg ++ operation_bytes c data_reg

pub encode_into_slice-Writes :
    (c : Command) (command_reg data_reg : Option ℕ)
    → HasData c
    → Writes (encode_into_slice c command_reg data_reg) (command_bytes c command_reg data_reg)
unfolding encode_into_slice
encode_into_slice-Writes c command_reg data_reg h =
    then-Writes (encode_register command_reg) (encode_operation c data_reg)
      (register_bytes command_reg) (operation_bytes c data_reg) (encode_register-Writes command_reg)
      (encode_operation-Writes c data_reg h)

-- A command whose data can be borrowed and counted is encoded as its bytes where the buffer has room for
-- them, and any smaller buffer is refused with the error InvalidSize.
pub encode_into_slice_lem :
    (c : Command) (command_reg data_reg : Option ℕ) (room : ℕ)
    → HasData c
    → let bs = command_bytes c command_reg data_reg in
      ((length bs ≤ room) × (encode_into_slice c command_reg data_reg room ≡ ok bs))
      ⊎ ((room < length bs)
          × (n : ℕ) × (m : ℕ) × (encode_into_slice c command_reg data_reg room
              ≡ err (invalid_size n m)))
encode_into_slice_lem c command_reg data_reg room h =
    let bs = command_bytes c command_reg data_reg in
    let w = encode_into_slice-Writes c command_reg data_reg h in
    elim (dec_le (length bs) room) [
      | yes k ↦ inl (k, w.fits room k)
      | no k ↦
          let l : room < length bs = omega (arith, k) in
          let f = w.full room l in inr (l, f.0, f.1, f.2)
    ]
