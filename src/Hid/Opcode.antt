-- ===== src/Hid/Opcode.antt =====
-- embedded-service/src/hid/command.rs: the fields of a command word, a u16. A mask and a shift are written
-- as a quotient and a remainder.
use embedded_services.Base.{
  ℕ, ◌*◌, ◌/◌, ◌%◌, ◌^◌, Bool, true, false, Result, ok, err, ◌==◌, if◌then◌else◌,
}
use embedded_services.Hid.Error.{Error, serialize}

pub data ReportType : Type 0 where
  input output feature : ReportType

unfoldable pub report_type_of_word : ℕ → Result ReportType Error
report_type_of_word value =
    let bits = value / 2 ^ 4 % 4 in
    if bits == 1
    then ok input
    else if bits == 2
    then ok output
    else if bits == 3
    then ok feature
    else err serialize

unfoldable pub word_of_report_type : ReportType → ℕ
word_of_report_type input = 1 * 2 ^ 4
word_of_report_type output = 2 * 2 ^ 4
word_of_report_type feature = 3 * 2 ^ 4

pub data PowerState : Type 0 where
  on sleep : PowerState

unfoldable pub power_state_of_word : ℕ → Result PowerState Error
power_state_of_word value =
    if value % 4 == 0 then ok on else if value % 4 == 1 then ok sleep else err serialize

unfoldable pub word_of_power_state : PowerState → ℕ
word_of_power_state on = 0
word_of_power_state sleep = 1

pub data ReportFreq : Type 0 where
  infinite : ReportFreq
  msecs : ℕ → ReportFreq

unfoldable pub report_freq_of_word : ℕ → Result ReportFreq Error
report_freq_of_word value = if value == 0 then ok infinite else ok (msecs value)

unfoldable pub word_of_report_freq : ReportFreq → ℕ
word_of_report_freq infinite = 0
word_of_report_freq (msecs n) = n

pub data Protocol : Type 0 where
  boot report : Protocol

unfoldable pub protocol_of_word : ℕ → Result Protocol Error
protocol_of_word value =
    if value == 0 then ok boot else if value == 1 then ok report else err serialize

unfoldable pub word_of_protocol : Protocol → ℕ
word_of_protocol boot = 0
word_of_protocol report = 1

pub data Opcode : Type 0 where
  reset get_report set_report get_idle set_idle get_protocol set_protocol set_power vendor : Opcode

unfoldable pub opcode_of_word : ℕ → Result Opcode Error
opcode_of_word value =
    let code = value / 2 ^ 8 % 16 in
    if code == 1
    then ok reset
    else if code == 2
    then ok get_report
    else if code == 3
    then ok set_report
    else if code == 4
    then ok get_idle
    else if code == 5
    then ok set_idle
    else if code == 6
    then ok get_protocol
    else if code == 7
    then ok set_protocol
    else if code == 8
    then ok set_power
    else if code == 14
    then ok vendor
    else err serialize

unfoldable pub word_of_opcode : Opcode → ℕ
word_of_opcode reset = 1 * 2 ^ 8
word_of_opcode get_report = 2 * 2 ^ 8
word_of_opcode set_report = 3 * 2 ^ 8
word_of_opcode get_idle = 4 * 2 ^ 8
word_of_opcode set_idle = 5 * 2 ^ 8
word_of_opcode get_protocol = 6 * 2 ^ 8
word_of_opcode set_protocol = 7 * 2 ^ 8
word_of_opcode set_power = 8 * 2 ^ 8
word_of_opcode vendor = 14 * 2 ^ 8

unfoldable pub requires_host_data : Opcode → Bool
requires_host_data set_report = true
requires_host_data set_idle = true
requires_host_data vendor = true
requires_host_data _ = false

unfoldable pub requires_report_id : Opcode → Bool
requires_report_id get_report = true
requires_report_id set_report = true
requires_report_id get_idle = true
requires_report_id set_idle = true
requires_report_id _ = false

unfoldable pub has_response : Opcode → Bool
has_response get_report = true
has_response get_idle = true
has_response get_protocol = true
has_response _ = false

abbrev pub extended_report_id : ℕ
extended_report_id = 15

-- ReportId::from_command
unfoldable pub from_command : ℕ → ℕ
from_command cmd = cmd % 16

unfoldable pub has_extended_report_id : ℕ → Bool
unfolding from_command
has_extended_report_id cmd = from_command cmd == extended_report_id
