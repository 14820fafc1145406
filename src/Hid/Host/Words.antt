-- ===== src/Hid/Host/Words.antt =====
-- The fields of the command words that are sent.
use embedded_services.Base.{
  ℕ, ◌+◌, ◌*◌, ◌%◌, ◌^◌, ◌<◌, ◌≡◌, ap, ◌∙◌, Option, none, some, ok, arith, leb, if◌then◌else◌,
}
use embedded_services.Hid.Opcode
use embedded_services.Hid.Opcode.{
  ReportType, input, output, feature, PowerState, on, sleep, opcode_of_word, report_type_of_word,
  power_state_of_word, word_of_opcode, word_of_report_type, word_of_power_state, extended_report_id,
  requires_report_id,
}
use embedded_services.Hid.Command.{type_bits}
use embedded_services.Hid.Command.Encoded.{common_word}
use embedded_services.Hid.Host.{type_of_word}

-- The identifier's four bits.
abbrev pub low_id : ℕ → ℕ
low_id id = if leb extended_report_id id then extended_report_id else id

low_id-lt : (id : ℕ) → low_id id < 16
low_id-lt id = ground arith

pub record Fields (opcode : Opcode.Opcode) (t : Option ReportType) (id word : ℕ) : Type 0 where
  pub small : word < 2 ^ 16
  pub code : opcode_of_word word ≡ ok opcode
  pub low : word % 16 ≡ low_id id
  pub type : type_of_word word ≡ t

-- The low byte of a word does not touch the opcode.
pub opcode_of_word-word_of_opcode :
    (opcode : Opcode.Opcode) (n : ℕ)
    → n < 256
    → opcode_of_word (word_of_opcode opcode + n) ≡ ok opcode
unfolding opcode_of_word word_of_opcode
opcode_of_word-word_of_opcode Opcode.reset n h = ground (arith, h)
opcode_of_word-word_of_opcode Opcode.get_report n h = ground (arith, h)
opcode_of_word-word_of_opcode Opcode.set_report n h = ground (arith, h)
opcode_of_word-word_of_opcode Opcode.get_idle n h = ground (arith, h)
opcode_of_word-word_of_opcode Opcode.set_idle n h = ground (arith, h)
opcode_of_word-word_of_opcode Opcode.get_protocol n h = ground (arith, h)
opcode_of_word-word_of_opcode Opcode.set_protocol n h = ground (arith, h)
opcode_of_word-word_of_opcode Opcode.set_power n h = ground (arith, h)
opcode_of_word-word_of_opcode Opcode.vendor n h = ground (arith, h)

high_lem : (opcode : Opcode.Opcode) → (k : ℕ) × (word_of_opcode opcode ≡ k * 256) × (k < 16)
unfolding word_of_opcode
high_lem Opcode.reset = (1, omega arith, omega arith)
high_lem Opcode.get_report = (2, omega arith, omega arith)
high_lem Opcode.set_report = (3, omega arith, omega arith)
high_lem Opcode.get_idle = (4, omega arith, omega arith)
high_lem Opcode.set_idle = (5, omega arith, omega arith)
high_lem Opcode.get_protocol = (6, omega arith, omega arith)
high_lem Opcode.set_protocol = (7, omega arith, omega arith)
high_lem Opcode.set_power = (8, omega arith, omega arith)
high_lem Opcode.vendor = (14, omega arith, omega arith)

type_bits_lem : (t : Option ReportType) → (j : ℕ) × (type_bits t ≡ j * 16) × (j < 4)
unfolding word_of_report_type
type_bits_lem none = (0, omega arith, omega arith)
type_bits_lem (some input) = (1, omega arith, omega arith)
type_bits_lem (some output) = (2, omega arith, omega arith)
type_bits_lem (some feature) = (3, omega arith, omega arith)

-- Neither the opcode nor the identifier touches the type.
type_of_word-type_bits :
    (t : Option ReportType) (k low : ℕ) → low < 16 → type_of_word (k * 256 + type_bits t + low) ≡ t
unfolding report_type_of_word word_of_report_type
type_of_word-type_bits none k low h = ground (arith, h)
type_of_word-type_bits (some input) k low h = ground (arith, h)
type_of_word-type_bits (some output) k low h = ground (arith, h)
type_of_word-type_bits (some feature) k low h = ground (arith, h)

pub common_word-Fields :
    (opcode : Opcode.Opcode) (t : Option ReportType) (id : ℕ)
    → Fields opcode t id (common_word opcode t id)
common_word-Fields opcode t id =
    let l = low_id-lt id in
    let a = high_lem opcode in
    let b = type_bits_lem t in
    let c =
      opcode_of_word-word_of_opcode opcode (type_bits t + low_id id) (omega (arith, l, b.1, b.2)) in
    let e : word_of_opcode opcode + type_bits t + low_id id
        ≡ word_of_opcode opcode + (type_bits t + low_id id) =
      omega arith in
    record {
      small = omega (arith, l, a.1, a.2, b.1, b.2);
      code = ap opcode_of_word e ∙ c;
      low = omega (arith, l, a.1, b.1);
      type =
          ap (λ n. type_of_word (n + type_bits t + low_id id)) a.1
          ∙ type_of_word-type_bits t a.0 (low_id id) l;
    }
