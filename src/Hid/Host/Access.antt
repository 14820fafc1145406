-- ===== src/Hid/Host/Access.antt =====
-- A command from the sender's encoder to the request that the device gets.
use embedded_services.Base.{
  ℕ, ◌+◌, ◌^◌, ◌≤◌, ◌<◌, ◌≡◌, ◌≢◌, refl, sym, ◌∙◌, false, none, some, List, [], ◌∷◌, ◌++◌, Result,
  ok, err, ok-injective, length, arith, ◌==◌, ==_refl, inl, inr,
}
use embedded_services.Base.Exec.{◌>>=◌, pure}
use embedded_services.Mctp.Encoding.Roundtrip.{append_assoc}
use embedded_services.Hid.Error.{Error}
use embedded_services.Hid.Opcode
use embedded_services.Hid.Opcode.{
  ReportType, input, output, feature, PowerState, on, sleep, boot, report, Protocol,
  requires_host_data, has_response, requires_report_id, opcode_of_word, word_of_opcode,
  word_of_power_state, power_state_of_word, word_of_report_freq, word_of_protocol, ReportFreq,
  protocol_of_word, report_freq_of_word, msecs,
}
use embedded_services.Hid.Command.{
  Command, reset, get_protocol, vendor, get_report, set_report, get_idle, set_idle, set_protocol,
  set_power, to_le_bytes, new, command_of, encode_into_slice,
}
use embedded_services.Hid.Command.Encoded.{
  common_word, id_bytes, value_bytes, operation_bytes, encode_into_slice_lem, HasData,
}
use embedded_services.Hid.Host.{
  RegisterFile, command, hid, process_command, dispatch, process_register_access,
}
use embedded_services.Hid.Host.Decode.{
  at, from_le_bytes-to_le_bytes, read_bus_two, read_report_id-id_bytes, with_data,
}
use embedded_services.Hid.Host.Words.{common_word-Fields}
use embedded_services.Hid.Host.Exchange.{process_command_steps, read_host_data_data}
use embedded_services.Hid.Host.Roundtrip.{
  IsReceived, get_report_received, set_report_received, get_idle_received, get_protocol_received,
  bare_received, reset_received, set_power_received,
}

-- The commands that the host's side can pass on, with their data small enough for a u16 and the buffer.
abbrev pub IsPassedOn : Command → ℕ → Type 0
IsPassedOn (get_report output id size) n = ⊥
IsPassedOn (set_report t id none) n = ⊥
IsPassedOn (set_report input id (some bytes)) n = ⊥
IsPassedOn (set_report t id (some bytes)) n = (length bytes + 2 < 2 ^ 16) × (length bytes + 2 ≤ n)
IsPassedOn (set_idle id f) n = ⊥
IsPassedOn (set_protocol p) n = ⊥
IsPassedOn vendor n = ⊥
IsPassedOn _ n = Unit

-- The expected size of an answer is not sent.
abbrev pub received : Command → Command
received (get_report t id size) = get_report t id none
received c = c

-- The addresses are u16, and the command register is not taken for one that is looked at before it.
pub record IsRegisterFile (regs : RegisterFile) : Type 0 where
  pub data_small : regs.data_reg < 2 ^ 16
  pub command_small : regs.command_reg < 2 ^ 16
  pub not_desc : regs.command_reg ≢ regs.hid_desc_reg
  pub not_report_desc : regs.command_reg ≢ regs.report_desc_reg
  pub not_input : regs.command_reg ≢ regs.input_reg

module _ (regs : RegisterFile) (w : IsRegisterFile regs) where
  access_command :
      (ys buffer : List ℕ)
      → process_register_access regs (at (to_le_bytes regs.command_reg ++ ys) buffer)
        ≡ (process_command regs >>= λ c. pure (command c)) (at ys buffer)
  unfolding process_register_access dispatch
  access_command ys buffer =
      let a : (regs.command_reg == regs.hid_desc_reg) ≡ false = ground (arith, w.not_desc) in
      let b : (regs.command_reg == regs.report_desc_reg) ≡ false =
        ground (arith, w.not_report_desc) in
      let c : (regs.command_reg == regs.input_reg) ≡ false = ground (arith, w.not_input) in
      rw
        (
          read_bus_two regs.command_reg ys buffer,
          from_le_bytes-to_le_bytes regs.command_reg w.command_small,
          a,
          b,
          c,
          ==_refl regs.command_reg,
        )
        refl

  passed_on :
      (c : Command) (x y z : ℕ) (more : List ℕ)
      → IsPassedOn c (length (x ∷ y ∷ z ∷ more))
      → IsReceived regs (operation_bytes c (some regs.data_reg)) (received c) (x ∷ y ∷ z ∷ more)
  unfolding new command_of requires_report_id requires_host_data
  passed_on reset x y z more h = reset_received regs w.data_small (x ∷ y ∷ z ∷ more)
  passed_on (get_report input id size) x y z more h =
      get_report_received regs w.data_small input id (x ∷ y ∷ z ∷ more) refl
  passed_on (get_report output id size) x y z more h = absurd h
  passed_on (get_report feature id size) x y z more h =
      get_report_received regs w.data_small feature id (x ∷ y ∷ z ∷ more) refl
  passed_on (set_report t id none) x y z more h = absurd h
  passed_on (set_report input id (some bytes)) x y z more h = absurd h
  passed_on (set_report output id (some bytes)) x y z more h =
      set_report_received regs w.data_small output id bytes x y z more h.0 h.1 refl
  passed_on (set_report feature id (some bytes)) x y z more h =
      set_report_received regs w.data_small feature id bytes x y z more h.0 h.1 refl
  passed_on (get_idle id) x y z more h = get_idle_received regs w.data_small id (x ∷ y ∷ z ∷ more)
  passed_on (set_idle id f) x y z more h = absurd h
  passed_on get_protocol x y z more h = get_protocol_received regs w.data_small (x ∷ y ∷ z ∷ more)
  passed_on (set_protocol p) x y z more h = absurd h
  passed_on (set_power s) x y z more h = set_power_received regs w.data_small s (x ∷ y ∷ z ∷ more)
  passed_on vendor x y z more h = absurd h

  has_data : (c : Command) (n : ℕ) → IsPassedOn c n → HasData c
  has_data reset n h = tt
  has_data (get_report t id size) n h = tt
  has_data (set_report t id none) n h = absurd h
  has_data (set_report input id (some bytes)) n h = absurd h
  has_data (set_report output id (some bytes)) n h = h.0
  has_data (set_report feature id (some bytes)) n h = h.0
  has_data (get_idle id) n h = tt
  has_data (set_idle id f) n h = tt
  has_data get_protocol n h = tt
  has_data (set_protocol p) n h = tt
  has_data (set_power s) n h = tt
  has_data vendor n h = tt

  abbrev encoded : Command → ℕ → Result (List ℕ) Error
  encoded c room = encode_into_slice c (some regs.command_reg) (some regs.data_reg) room

  encoded_bytes :
      (c : Command) (room : ℕ) (bytes : List ℕ)
      → HasData c
      → encoded c room ≡ ok bytes
      → bytes ≡ to_le_bytes regs.command_reg ++ operation_bytes c (some regs.data_reg)
  encoded_bytes c room bytes h e =
      elim (encode_into_slice_lem c (some regs.command_reg) (some regs.data_reg) room h) [
        | inl k ↦ ok-injective (sym e ∙ k.1)
        | inr k ↦ absurd (ground (arith, e, k.3))
      ]

  -- A command of the kinds that are passed on comes to the device as it was sent, less the expected size
  -- of an answer, and every byte of it has been read. The buffer has three bytes at least, and room for
  -- the data and their length.
  pub process_register_access-encode_into_slice :
      (c : Command) (x y z : ℕ) (more : List ℕ) (room : ℕ) (bytes : List ℕ)
      → IsPassedOn c (length (x ∷ y ∷ z ∷ more))
      → encoded c room ≡ ok bytes
      → let r = process_register_access regs (at bytes (x ∷ y ∷ z ∷ more)) in
        (r.0 ≡ ok (command (received c))) × (r.1.incoming ≡ [])
  process_register_access-encode_into_slice c x y z more room bytes h e =
      let p = passed_on c x y z more h in
      let b = encoded_bytes c room bytes (has_data c _ h) e in
      rw (b, access_command (operation_bytes c (some regs.data_reg)) (x ∷ y ∷ z ∷ more), p.0)
        (refl, p.1)

  -- A protocol that the host sets is refused, as the whole command word is read as the protocol. The
  -- address of the data register and the value stay unread.
  pub set_protocol_refused :
      (p : Protocol) (buffer : List ℕ) (room : ℕ) (bytes : List ℕ)
      → encoded (set_protocol p) room ≡ ok bytes
      → process_register_access regs (at bytes buffer) ≡ (
        err (hid Error.invalid_command),
        at (to_le_bytes regs.data_reg ++ value_bytes (word_of_protocol p)) buffer,
      )
  unfolding new command_of requires_report_id requires_host_data has_response opcode_of_word
      word_of_opcode protocol_of_word
  set_protocol_refused p buffer room bytes e =
      let b = encoded_bytes (set_protocol p) room bytes tt e in
      let ys = to_le_bytes regs.data_reg ++ value_bytes (word_of_protocol p) in
      rw
        (
          b,
          access_command (operation_bytes (set_protocol p) (some regs.data_reg)) buffer,
          bare_received regs w.data_small Opcode.set_protocol 1792 ys buffer (omega arith) refl refl
              refl refl,
        )
        refl

  -- The idle rate that a device gets is the command word, whichever rate the host asked for; the
  -- buffer has four bytes at least.
  pub set_idle_frequency :
      (id : ℕ) (f : ReportFreq) (x y z v : ℕ) (more : List ℕ) (room : ℕ) (bytes : List ℕ)
      → encoded (set_idle id f) room ≡ ok bytes
      → (process_register_access regs (at bytes (x ∷ y ∷ z ∷ v ∷ more))).0
        ≡ ok (command (set_idle id (msecs (common_word Opcode.set_idle none id))))
  unfolding new command_of requires_report_id requires_host_data has_response report_freq_of_word
      word_of_opcode
  set_idle_frequency id f x y z v more room bytes e =
      let b = encoded_bytes (set_idle id f) room bytes tt e in
      let value = to_le_bytes (word_of_report_freq f) in
      let word = common_word Opcode.set_idle none id in
      let buffer = x ∷ y ∷ z ∷ v ∷ more in
      let g = common_word-Fields Opcode.set_idle none id in
      let ys = to_le_bytes regs.data_reg ++ (to_le_bytes 4 ++ value) in
      let i = read_report_id-id_bytes Opcode.set_idle word id ys buffer refl g.low in
      let d =
        read_host_data_data regs Opcode.set_idle value x y z (v ∷ more) w.data_small refl
          (omega arith) (omega arith) in
      let p =
        process_command_steps regs word Opcode.set_idle (some id) (some (some value))
          (id_bytes id ++ ys) buffer (at ys buffer) (at [] (with_data value buffer)) g.small g.code
          i d in
      let k : (word == 0) ≡ false = ground arith in
      rw
        (
          b,
          access_command (operation_bytes (set_idle id f) (some regs.data_reg)) buffer,
          append_assoc (to_le_bytes word) (id_bytes id) ys,
          p,
          k,
        )
        refl
