-- ===== src/Hid/Host/Roundtrip.antt =====
-- Which commands come to the device as they were sent, and which do not.
use embedded_services.Base.{
  ℕ, ◌+◌, ◌^◌, ◌≤◌, ◌<◌, ◌≡◌, refl, false, none, some, List, [], ◌∷◌, ◌++◌, ok, map_err, length,
  arith,
}
use embedded_services.Mctp.Encoding.Roundtrip.{append_assoc}
use embedded_services.Hid.Error
use embedded_services.Hid.Opcode
use embedded_services.Hid.Opcode.{
  ReportType, input, output, feature, PowerState, on, sleep, boot, report, Protocol,
  requires_host_data, has_response, requires_report_id, opcode_of_word, word_of_opcode,
  word_of_power_state, power_state_of_word, word_of_report_freq, protocol_of_word,
  report_freq_of_word, msecs,
}
use embedded_services.Hid.Command.{
  Command, reset, get_protocol, get_report, set_report, get_idle, set_power, to_le_bytes, new,
  command_of,
}
use embedded_services.Hid.Command.Encoded.{common_word, id_bytes, common_bytes, operation_bytes}
use embedded_services.Hid.Host.{RegisterFile, hid, type_of_word, process_command}
use embedded_services.Hid.Host.Decode.{at, read_report_id-id_bytes, read_report_id-none, with_data}
use embedded_services.Hid.Host.Words.{common_word-Fields}
use embedded_services.Hid.Host.Exchange.{
  process_command_steps, read_host_data-none, read_host_data_response, read_host_data_data,
}

abbrev pub IsReceived : RegisterFile → List ℕ → Command → List ℕ → Type 0
IsReceived regs bytes c buffer =
    let r = process_command regs (at bytes buffer) in (r.0 ≡ ok c) × (r.1.incoming ≡ [])

module _ (regs : RegisterFile) (small : regs.data_reg < 2 ^ 16) where
  pub get_report_received :
      (t : ReportType) (id : ℕ) (buffer : List ℕ)
      → new
          (common_word Opcode.get_report (some t) id)
          Opcode.get_report
          (some t)
          (some id)
          none
          none
        ≡ ok (get_report t id none)
      → IsReceived regs
          (common_bytes Opcode.get_report (some t) id ++ to_le_bytes regs.data_reg)
          (get_report t id none)
          buffer
  unfolding requires_report_id requires_host_data has_response
  get_report_received t id buffer n =
      let w = common_word Opcode.get_report (some t) id in
      let f = common_word-Fields Opcode.get_report (some t) id in
      let i =
        read_report_id-id_bytes Opcode.get_report w id (to_le_bytes regs.data_reg) buffer refl
          f.low in
      let d = read_host_data_response regs Opcode.get_report [] buffer small refl refl in
      let p =
        process_command_steps regs w Opcode.get_report (some id) none
          (id_bytes id ++ to_le_bytes regs.data_reg) buffer (at (to_le_bytes regs.data_reg) buffer)
          (at [] buffer) f.small f.code i d in
      rw (p, f.type, n) (refl, refl)

  pub set_report_received :
      (t : ReportType) (id : ℕ) (bytes : List ℕ) (x y z : ℕ) (more : List ℕ)
      → length bytes + 2 < 2 ^ 16
      → length bytes + 2 ≤ length (x ∷ y ∷ z ∷ more)
      → new
          (common_word Opcode.set_report (some t) id)
          Opcode.set_report
          (some t)
          (some id)
          (some (some bytes))
          none
        ≡ ok (set_report t id (some bytes))
      → IsReceived regs
          (operation_bytes (set_report t id (some bytes)) (some regs.data_reg))
          (set_report t id (some bytes))
          (x ∷ y ∷ z ∷ more)
  unfolding requires_report_id requires_host_data has_response
  set_report_received t id bytes x y z more l h n =
      let w = common_word Opcode.set_report (some t) id in
      let f = common_word-Fields Opcode.set_report (some t) id in
      let buffer = x ∷ y ∷ z ∷ more in
      let ys = to_le_bytes regs.data_reg ++ (to_le_bytes (length bytes + 2) ++ bytes) in
      let i = read_report_id-id_bytes Opcode.set_report w id ys buffer refl f.low in
      let d = read_host_data_data regs Opcode.set_report bytes x y z more small refl h l in
      let p =
        process_command_steps regs w Opcode.set_report (some id) (some (some bytes))
          (id_bytes id ++ ys) buffer (at ys buffer) (at [] (with_data bytes buffer)) f.small f.code
          i d in
      rw (append_assoc (to_le_bytes w) (id_bytes id) ys, p, f.type, n) (refl, refl)

  pub get_idle_received :
      (id : ℕ) (buffer : List ℕ)
      → IsReceived regs (operation_bytes (get_idle id) (some regs.data_reg)) (get_idle id) buffer
  unfolding requires_report_id requires_host_data has_response new command_of
  get_idle_received id buffer =
      let w = common_word Opcode.get_idle none id in
      let f = common_word-Fields Opcode.get_idle none id in
      let i =
        read_report_id-id_bytes Opcode.get_idle w id (to_le_bytes regs.data_reg) buffer refl
          f.low in
      let d = read_host_data_response regs Opcode.get_idle [] buffer small refl refl in
      let p =
        process_command_steps regs w Opcode.get_idle (some id) none
          (id_bytes id ++ to_le_bytes regs.data_reg) buffer (at (to_le_bytes regs.data_reg) buffer)
          (at [] buffer) f.small f.code i d in
      rw p (refl, refl)

  pub get_protocol_received :
      (buffer : List ℕ)
      → IsReceived regs (operation_bytes get_protocol (some regs.data_reg)) get_protocol buffer
  unfolding requires_report_id requires_host_data has_response new command_of opcode_of_word
      word_of_opcode
  get_protocol_received buffer =
      let w = word_of_opcode Opcode.get_protocol in
      let s1 = at (to_le_bytes regs.data_reg) buffer in
      let d = read_host_data_response regs Opcode.get_protocol [] buffer small refl refl in
      let p =
        process_command_steps regs w Opcode.get_protocol none none (to_le_bytes regs.data_reg)
          buffer s1 (at [] buffer) (omega arith) refl
          (read_report_id-none Opcode.get_protocol w s1 refl) d in
      rw p (refl, refl)

  -- A word without anything behind it.
  pub bare_received :
      (opcode : Opcode.Opcode) (w : ℕ) (ys buffer : List ℕ)
      → w < 2 ^ 16
      → opcode_of_word w ≡ ok opcode
      → requires_report_id opcode ≡ false
      → requires_host_data opcode ≡ false
      → has_response opcode ≡ false
      → process_command regs (at (to_le_bytes w ++ ys) buffer) ≡ (
        map_err (λ e. hid Error.invalid_command) (new w opcode (type_of_word w) none none none),
        at ys buffer,
      )
  bare_received opcode w ys buffer l o r h p =
      process_command_steps regs w opcode none none ys buffer (at ys buffer) (at ys buffer) l o
        (read_report_id-none opcode w (at ys buffer) r)
        (read_host_data-none regs opcode (at ys buffer) h p)

  pub reset_received :
      (buffer : List ℕ) → IsReceived regs (operation_bytes reset (some regs.data_reg)) reset buffer
  unfolding requires_report_id requires_host_data has_response new command_of opcode_of_word
      word_of_opcode
  reset_received buffer =
      let w = word_of_opcode Opcode.reset in
      rw (bare_received Opcode.reset w [] buffer (omega arith) refl refl refl refl) (refl, refl)

  pub set_power_received :
      (s : PowerState) (buffer : List ℕ)
      → IsReceived regs (operation_bytes (set_power s) (some regs.data_reg)) (set_power s) buffer
  unfolding requires_report_id requires_host_data has_response new command_of opcode_of_word
      word_of_opcode word_of_power_state power_state_of_word
  set_power_received on buffer =
      rw (bare_received Opcode.set_power 2048 [] buffer (omega arith) refl refl refl refl)
        (refl, refl)
  set_power_received sleep buffer =
      rw (bare_received Opcode.set_power 2049 [] buffer (omega arith) refl refl refl refl)
        (refl, refl)
