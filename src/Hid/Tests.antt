-- ===== src/Hid/Tests.antt =====
-- Examples: commands and a descriptor over the default registers.
use embedded_services.Base.{
  ℕ, ◌≡◌, ◌≤◌, ◌<◌, ◌⊎◌, refl, some, none, List, [], ◌∷◌, ◌++◌, ok, err, length, arith,
}
use embedded_services.Hid.Error
use embedded_services.Hid.Error.{invalid_size}
use embedded_services.Hid.Opcode.{
  input, output, msecs, report, word_of_opcode, word_of_report_type, word_of_protocol,
  word_of_report_freq,
}
use embedded_services.Hid.Command.{
  Command, get_report, set_report, set_idle, set_protocol, encode_common, encode_basic_op,
  encode_register, encode_value, encode_data, encode_operation, encode_into_slice,
}
use embedded_services.Hid.Command.Encoded.{command_bytes, encode_into_slice_lem}
use embedded_services.Hid.Descriptor
use embedded_services.Hid.Descriptor.{
  Descriptor, fields, le_bytes, decode_from_slice, decode_from_slice-encode_into_slice,
}
use embedded_services.Hid.Host.{command, hid, default_registers, process_register_access}
use embedded_services.Hid.Host.Decode.{at}
use embedded_services.Hid.Host.Access.{
  IsRegisterFile, process_register_access-encode_into_slice, set_protocol_refused,
  set_idle_frequency,
}

registers : IsRegisterFile default_registers
unfolding default_registers
registers = record {
  data_small = omega arith;
  command_small = omega arith;
  not_desc = λ e. omega (arith, e);
  not_report_desc = λ e. omega (arith, e);
  not_input = λ e. omega (arith, e);
}

evaluation : Unit {0}
unfolding encode_common encode_basic_op encode_register encode_value encode_data encode_operation
    encode_into_slice word_of_opcode word_of_report_type word_of_protocol word_of_report_freq
    default_registers
evaluation = tt

-- An output report with the extended identifier 20.
abbrev output_report : Command
output_report = set_report output 20 (some (7 ∷ 8 ∷ []))

abbrev output_bytes : List ℕ
output_bytes = 5 ∷ 0 ∷ 47 ∷ 3 ∷ 20 ∷ 6 ∷ 0 ∷ 4 ∷ 0 ∷ 7 ∷ 8 ∷ []

output_encoded : encode_into_slice output_report (some 5) (some 6) 11 ≡ ok output_bytes
unfolding evaluation
output_encoded = refl

-- One byte too few.
output_refused : encode_into_slice output_report (some 5) (some 6) 10 ≡ err (invalid_size 4 3)
unfolding evaluation
output_refused = refl

process_register_access-encode_into_slice_example :
    let r = process_register_access default_registers (at output_bytes (0 ∷ 0 ∷ 0 ∷ 0 ∷ 0 ∷ [])) in
    (r.0 ≡ ok (command output_report)) × (r.1.incoming ≡ [])
unfolding default_registers
process_register_access-encode_into_slice_example =
    process_register_access-encode_into_slice default_registers registers output_report 0 0 0
      (0 ∷ 0 ∷ []) 11 output_bytes (omega arith, omega arith) output_encoded

abbrev protocol_bytes : List ℕ
protocol_bytes = 5 ∷ 0 ∷ 0 ∷ 7 ∷ 6 ∷ 0 ∷ 4 ∷ 0 ∷ 1 ∷ 0 ∷ []

protocol_encoded : encode_into_slice (set_protocol report) (some 5) (some 6) 16 ≡ ok protocol_bytes
unfolding evaluation
protocol_encoded = refl

set_protocol_refused_example :
    process_register_access default_registers (at protocol_bytes (0 ∷ 0 ∷ 0 ∷ []))
    ≡ (err (hid Error.invalid_command), at (6 ∷ 0 ∷ 4 ∷ 0 ∷ 1 ∷ 0 ∷ []) (0 ∷ 0 ∷ 0 ∷ []))
unfolding default_registers word_of_protocol
set_protocol_refused_example =
    set_protocol_refused default_registers registers report (0 ∷ 0 ∷ 0 ∷ []) 16 protocol_bytes
      protocol_encoded

abbrev idle_bytes : List ℕ
idle_bytes = 5 ∷ 0 ∷ 2 ∷ 5 ∷ 6 ∷ 0 ∷ 4 ∷ 0 ∷ 244 ∷ 1 ∷ []

idle_encoded : encode_into_slice (set_idle 2 (msecs 500)) (some 5) (some 6) 16 ≡ ok idle_bytes
unfolding evaluation
idle_encoded = refl

-- The rate is 0x502 where 500 was asked for.
set_idle_frequency_example :
    (process_register_access default_registers (at idle_bytes (0 ∷ 0 ∷ 0 ∷ 0 ∷ []))).0
    ≡ ok (command (set_idle 2 (msecs 1282)))
unfolding default_registers word_of_opcode
set_idle_frequency_example =
    set_idle_frequency default_registers registers 2 (msecs 500) 0 0 0 0 [] 16 idle_bytes
      idle_encoded

encode_into_slice_lem_example :
    let c = get_report input 8 none in
    let bs = command_bytes c (some 5) none in
    ((length bs ≤ 6) × (encode_into_slice c (some 5) none 6 ≡ ok bs))
    ⊎ ((6 < length bs)
        × (n : ℕ) × (m : ℕ) × (encode_into_slice c (some 5) none 6 ≡ err (invalid_size n m)))
encode_into_slice_lem_example = encode_into_slice_lem (get_report input 8 none) (some 5) none 6 tt

abbrev keyboard : Descriptor
keyboard = record {
  w_hid_desc_length = 30;
  bcd_version = 256;
  w_report_desc_length = 129;
  w_report_desc_register = 2;
  w_input_register = 3;
  w_max_input_length = 12;
  w_output_register = 4;
  w_max_output_length = 5;
  w_command_register = 5;
  w_data_register = 6;
  w_vendor_id = 1118;
  w_product_id = 65535;
  w_version_id = 1;
}

decode_from_slice-encode_into_slice_example :
    let bytes = le_bytes (fields keyboard) ++ (0 ∷ 0 ∷ 0 ∷ 0 ∷ []) in
    (Descriptor.encode_into_slice keyboard 32 ≡ ok bytes)
    × (length bytes ≡ 30)
    × (decode_from_slice (bytes ++ (1 ∷ [])) ≡ ok keyboard)
decode_from_slice-encode_into_slice_example =
    decode_from_slice-encode_into_slice keyboard 32 (1 ∷ []) (
      omega arith,
      (
        omega arith,
        (
          omega arith,
          (
            omega arith,
            (
              omega arith,
              (
                omega arith,
                (
                  omega arith,
                  (
                    omega arith,
                    (omega arith, (omega arith, (omega arith, (omega arith, (omega arith, tt))))),
                  ),
                ),
              ),
            ),
          ),
        ),
      ),
    )
