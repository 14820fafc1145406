-- ===== src/Hid/Host/Exchange.antt =====
-- What the host's side reads of a command that `encode_into_slice` wrote.
use embedded_services.Base.{
  ℕ, ◌+◌, ◌^◌, ◌≤◌, ◌<◌, ◌≡◌, refl, subst, true, false, Option, none, some, List, [], ◌∷◌, ◌++◌, ok,
  map_err, length, ==_refl,
}
use embedded_services.Mctp.Encoding.Roundtrip.{append_nil}
use embedded_services.Hid.Error
use embedded_services.Hid.Opcode
use embedded_services.Hid.Opcode.{
  ReportType, input, output, feature, PowerState, on, sleep, boot, report, Protocol,
  requires_host_data, has_response, requires_report_id, opcode_of_word, word_of_opcode,
  word_of_power_state, power_state_of_word, word_of_report_freq, protocol_of_word,
  report_freq_of_word, msecs,
}
use embedded_services.Hid.Command.{SharedRef, to_le_bytes, new}
use embedded_services.Hid.Host.{
  RegisterFile, hid, Host, read_report_id, read_host_data, type_of_word, process_command, read_data,
}
use embedded_services.Hid.Host.Decode.{
  at, from_le_bytes-to_le_bytes, read_bus_two, with_data, read_data-with_data, slice-with_data,
}

module _ (regs : RegisterFile) where
  -- The parts of a command one after the other.
  pub process_command_steps :
      (word : ℕ) (opcode : Opcode.Opcode) (id : Option ℕ) (d : Option SharedRef)
      (ys buffer : List ℕ) (s2 s3 : Host)
      → word < 2 ^ 16
      → opcode_of_word word ≡ ok opcode
      → read_report_id opcode word (at ys buffer) ≡ (ok id, s2)
      → read_host_data regs opcode s2 ≡ (ok d, s3)
      → process_command regs (at (to_le_bytes word ++ ys) buffer) ≡ (
        map_err (λ e. hid Error.invalid_command) (new word opcode (type_of_word word) id d none),
        s3,
      )
  unfolding process_command
  process_command_steps word opcode id d ys buffer s2 s3 w o i h =
      rw (read_bus_two word ys buffer, from_le_bytes-to_le_bytes word w, o, i, h) refl

  pub read_host_data-none :
      (opcode : Opcode.Opcode) (s : Host)
      → requires_host_data opcode ≡ false
      → has_response opcode ≡ false
      → read_host_data regs opcode s ≡ (ok none, s)
  unfolding read_host_data
  read_host_data-none opcode s a b = rw (a, b) refl

  pub read_host_data_response :
      (opcode : Opcode.Opcode) (ys buffer : List ℕ)
      → regs.data_reg < 2 ^ 16
      → requires_host_data opcode ≡ false
      → has_response opcode ≡ true
      → read_host_data regs opcode (at (to_le_bytes regs.data_reg ++ ys) buffer)
        ≡ (ok none, at ys buffer)
  unfolding read_host_data
  read_host_data_response opcode ys buffer l a b =
      rw
        (
          a,
          b,
          read_bus_two regs.data_reg ys buffer,
          from_le_bytes-to_le_bytes regs.data_reg l,
          ==_refl regs.data_reg,
          a,
        )
        refl

  pub read_host_data_data :
      (opcode : Opcode.Opcode) (bytes : List ℕ) (x y z : ℕ) (more : List ℕ)
      → regs.data_reg < 2 ^ 16
      → requires_host_data opcode ≡ true
      → length bytes + 2 ≤ length (x ∷ y ∷ z ∷ more)
      → length bytes + 2 < 2 ^ 16
      → read_host_data regs opcode (
          at
            (to_le_bytes regs.data_reg ++ (to_le_bytes (length bytes + 2) ++ bytes))
            (x ∷ y ∷ z ∷ more))
        ≡ (ok (some (some bytes)), at [] (with_data bytes (x ∷ y ∷ z ∷ more)))
  unfolding read_host_data
  read_host_data_data opcode bytes x y z more l a h w =
      let r =
        subst
          (λ v.
            read_data (at (to_le_bytes (length bytes + 2) ++ v) (x ∷ y ∷ z ∷ more))
            ≡ (ok (length bytes + 2), at [] (with_data bytes (x ∷ y ∷ z ∷ more))))
          (append_nil bytes) (read_data-with_data bytes [] x y z more h w) in
      rw
        (
          a,
          read_bus_two regs.data_reg (to_le_bytes (length bytes + 2) ++ bytes) (x ∷ y ∷ z ∷ more),
          from_le_bytes-to_le_bytes regs.data_reg l,
          ==_refl regs.data_reg,
          a,
          r,
          slice-with_data bytes [] x y z more h,
        )
        refl
