-- ===== src/Hid/Descriptor.antt =====
-- embedded-service/src/hid/mod.rs: the HID descriptor and its 30 bytes.
use embedded_services.Base.{
  ℕ, zero, suc, ◌+◌, ◌*◌, ◌/◌, ◌%◌, ◌^◌, ◌<◌, ◌≡◌, refl, Bool, false, ◌&&◌, not, List, [], ◌∷◌,
  ◌++◌, Result, ok, err, length, arith, ltb, ◌==◌, if◌then◌else◌, All,
}
use embedded_services.Hid.Error.{Error, invalid_size, invalid_data}
use embedded_services.Hid.Command.{to_le_bytes}

pub record Descriptor : Type 0 where
  pub w_hid_desc_length : ℕ
  pub bcd_version : ℕ
  pub w_report_desc_length : ℕ
  pub w_report_desc_register : ℕ
  pub w_input_register : ℕ
  pub w_max_input_length : ℕ
  pub w_output_register : ℕ
  pub w_max_output_length : ℕ
  pub w_command_register : ℕ
  pub w_data_register : ℕ
  pub w_vendor_id : ℕ
  pub w_product_id : ℕ
  pub w_version_id : ℕ

abbrev pub descriptor_len : ℕ
descriptor_len = 30

-- The fields in their order.
abbrev pub fields : Descriptor → List ℕ
fields d =
    d.w_hid_desc_length ∷ d.bcd_version ∷ d.w_report_desc_length ∷ d.w_report_desc_register
    ∷ d.w_input_register ∷ d.w_max_input_length ∷ d.w_output_register ∷ d.w_max_output_length
    ∷ d.w_command_register ∷ d.w_data_register ∷ d.w_vendor_id ∷ d.w_product_id ∷ d.w_version_id
    ∷ []

abbrev pub le_bytes : List ℕ → List ℕ
le_bytes [] = []
le_bytes (n ∷ ns) = to_le_bytes n ++ le_bytes ns

-- The bytes that are written into a buffer of some size.
unfoldable pub encode_into_slice : Descriptor → ℕ → Result (List ℕ) Error
encode_into_slice d room =
    if ltb room descriptor_len
    then err (invalid_size descriptor_len room)
    else ok (le_bytes (fields d) ++ (0 ∷ 0 ∷ 0 ∷ 0 ∷ []))

-- `buf[i]`
abbrev pub byte_at : ℕ → List ℕ → ℕ
byte_at i [] = 0
byte_at zero (b ∷ bs) = b
byte_at (suc i) (b ∷ bs) = byte_at i bs

-- `u16::from_le_bytes([buf[i], buf[i + 1]])`
abbrev pub word_at : ℕ → List ℕ → ℕ
word_at i buf = byte_at i buf + byte_at (suc i) buf * 256

unfoldable pub decode_from_slice : List ℕ → Result Descriptor Error
decode_from_slice buf =
    let is_zero : ℕ → Bool = λ i. byte_at i buf == 0 in
    if ltb (length buf) descriptor_len
    then err (invalid_size descriptor_len (length buf))
    else if not (is_zero 26 && is_zero 27 && is_zero 28 && is_zero 29)
    then err invalid_data
    else ok (record {
      w_hid_desc_length = word_at 0 buf;
      bcd_version = word_at 2 buf;
      w_report_desc_length = word_at 4 buf;
      w_report_desc_register = word_at 6 buf;
      w_input_register = word_at 8 buf;
      w_max_input_length = word_at 10 buf;
      w_output_register = word_at 12 buf;
      w_max_output_length = word_at 14 buf;
      w_command_register = word_at 16 buf;
      w_data_register = word_at 18 buf;
      w_vendor_id = word_at 20 buf;
      w_product_id = word_at 22 buf;
      w_version_id = word_at 24 buf;
    })

-- Every field is a u16.
abbrev pub IsDescriptor : Descriptor → Type 0
IsDescriptor d = All (λ n. n < 2 ^ 16) (fields d)

le_word : (n : ℕ) → n < 2 ^ 16 → n % 256 + n / 256 % 256 * 256 ≡ n
le_word n h = omega (arith, h)

-- A descriptor of u16 fields is written into every buffer of at least 30 bytes and read back from it,
-- whatever stands behind it; smaller buffers are refused on both sides.
pub decode_from_slice-encode_into_slice :
    (d : Descriptor) (room : ℕ) (more : List ℕ)
    → IsDescriptor d
    → let bytes = le_bytes (fields d) ++ (0 ∷ 0 ∷ 0 ∷ 0 ∷ []) in
      (encode_into_slice d room ≡ (if ltb room 30 then err (invalid_size 30 room) else ok bytes))
      × (length bytes ≡ 30)
      × (decode_from_slice (bytes ++ more) ≡ ok d)
unfolding encode_into_slice decode_from_slice
decode_from_slice-encode_into_slice d room more h =
    let bytes = le_bytes (fields d) ++ (0 ∷ 0 ∷ 0 ∷ 0 ∷ []) in
    let k : ltb (length (bytes ++ more)) 30 ≡ false = ground arith in
    (
      refl,
      refl,
      rw
          (
            k,
            le_word d.w_hid_desc_length h.0,
            le_word d.bcd_version h.1.0,
            le_word d.w_report_desc_length h.1.1.0,
            le_word d.w_report_desc_register h.1.1.1.0,
            le_word d.w_input_register h.1.1.1.1.0,
            le_word d.w_max_input_length h.1.1.1.1.1.0,
            le_word d.w_output_register h.1.1.1.1.1.1.0,
            le_word d.w_max_output_length h.1.1.1.1.1.1.1.0,
            le_word d.w_command_register h.1.1.1.1.1.1.1.1.0,
            le_word d.w_data_register h.1.1.1.1.1.1.1.1.1.0,
            le_word d.w_vendor_id h.1.1.1.1.1.1.1.1.1.1.0,
            le_word d.w_product_id h.1.1.1.1.1.1.1.1.1.1.1.0,
            le_word d.w_version_id h.1.1.1.1.1.1.1.1.1.1.1.1.0,
          )
          refl,
    )
