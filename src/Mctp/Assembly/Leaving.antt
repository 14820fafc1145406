-- ===== src/Mctp/Assembly/Leaving.antt =====
-- How a message that is being assembled is left.
use embedded_services.Base.{ℕ, ◌≡◌, ◌⊎◌, true, false, Option, none, Result, ok, err, ◌==◌}
use embedded_services.Base.Exec.{Exec}
use embedded_services.Mctp.Encoding
use embedded_services.Mctp.Header.{next, TransportHeader, HeaderParser}
use embedded_services.Mctp.Assembly.{
  PacketError, Medium, AssemblingState, idle, receiving, PacketContext, Message,
}
use embedded_services.Mctp.Assembly.Train.{Continues}

module _ {F E R : Type 0} (medium : Medium F E R) (parser : HeaderParser) where
  -- The packet is refused or broken, and the message stays as it is.
  abbrev pub Kept :
      AssemblingState → Result (Option (Message R)) (PacketError E) × PacketContext → Type 0
  Kept st r = (e : PacketError E) × (r.0 ≡ err e) × (r.1.assembly_state ≡ receiving st)

  -- A packet that goes on with the message is taken, and more are to come or the message ends.
  abbrev pub Taken :
      AssemblingState
      → TransportHeader
      → Result (Option (Message R)) (PacketError E) × PacketContext
      → Type 0
  Taken st h r =
      Continues st h
      × (next st.packet_sequence_number ≡ h.packet_sequence_number)
      × (((h.end_of_message == 1) ≡ false)
            × (r.0 ≡ ok none)
            × ((filled : ℕ) × (r.1.assembly_state
                  ≡ receiving (record st { packet_assembly_buffer_index = filled })))
          ⊎ ((h.end_of_message == 1) ≡ true) × (r.1.assembly_state ≡ idle))

  abbrev Left :
      AssemblingState
      → TransportHeader
      → Result (Option (Message R)) (PacketError E) × PacketContext
      → Type 0
  Left st h r = Kept st r ⊎ Taken st h r
