-- ===== src/Lib.antt =====
-- A model of parts of the embedded-services repository: services for the firmware of an embedded
-- controller. Each part below is modelled on its own; the parts share no state.
--
-- Power policy (power-policy-interface/src, power-policy-service/src/service). The service chooses
-- which PSU the system draws power from, switches to it, tells the chargers, and answers devices that
-- ask to be supplied. PSUs and chargers run their own state machines, to which the service holds
-- references.
--   PowerPolicy/Capability   capability.rs: capabilities, their power in mW (a u32), their order
--   PowerPolicy/Charger      charger/mod.rs: the charger's state machine (State)
--   PowerPolicy/Psu          psu/mod.rs: the PSU's state machine (State)
--   PowerPolicy/Event        charger/event.rs, psu/event.rs, service/event.rs; Event/Senders:
--                            service/notification.rs
--   PowerPolicy/Device       the traits Psu, Charger and the notifier, and the set of connected
--                            providers, as interfaces; Device/Laws: what a driver promises
--   PowerPolicy/Service      service/mod.rs: the service's state, its calls of drivers, its notifications
--   PowerPolicy/Service/Consumer   service/consumer.rs: find_best_consumer_default,
--                            connect_new_consumer, update_current_consumer,
--                            update_unconstrained_state
--   PowerPolicy/Service/Provider   service/provider.rs: connect_provider, post_provider_removed
--   PowerPolicy/Service/Handlers   service/mod.rs and service/task.rs: process_psu_event,
--                            process_charger_event, one round of the task
-- A method is a function from the service to a result and the service after, so that what was written
-- before an early return stays written. The devices are a store from references to states, and `effects`
-- logs every call of a driver, every wait and every notification, the latest first. Two references are
-- one device when they are equal, as with ptr::eq. A handler runs to its end before the next one starts,
-- as the lock around the service makes it; what a driver task does to its own PSU in the meantime is not
-- modelled.
--
-- Time and alarm (time-alarm-service/src, time-alarm-service-interface/src). The service keeps one ACPI
-- wake timer for each power source, the real time and the time zone.
--   TimeAlarm/Interface      time-alarm-service-interface/src/lib.rs, and embedded_mcu_hal's dates, clocks
--                            and storage as interfaces with laws
--   TimeAlarm/Zone           acpi_timestamp.rs: time zones and daylight savings; lib.rs: time_zone_data
--   TimeAlarm/Timer          timer.rs: the timer, its storage and its transitions; Timer/Loop: the waits of
--                            its task, as steps that calls of other tasks come between
--   TimeAlarm/Service        lib.rs: Timers and ServiceInner
-- A method takes what the clock answers as an argument, once for each reading, so the clock may answer
-- anything and may fail at any of them. `pending` is the slot of the timer's Signal, which keeps the
-- last value.
--
-- MCTP (mctp-rs/src). Bytes on a serial wire, and messages received in packets. A medium unpacks a packet
-- to a frame and a decoder, from which the packet context reads the header and the body.
--   Mctp/Encoding            buffer_encoding.rs and SerialEncoding of medium/serial.rs: byte stuffing; a
--                            buffer that is written to is what was written and its size
--   Mctp/Serial              MctpSerialMedium of medium/serial.rs: frames; the crate `crc` is a parameter
--   Mctp/Header              mctp_transport_header.rs, endpoint_id.rs, mctp_sequence_number.rs: the header's
--                            fields; the macro that reads its bits is a parameter
--   Mctp/Assembly            mctp_packet_context.rs (deserialize_packet) and deserialize.rs: packets of any
--                            medium are assembled into messages
--   Mctp/Sending             serialize.rs: SerializePacketState::next; Sending/Encodings: what a sender
--                            relies on in an encoding and a medium
--   Mctp/Smbus               SmbusEspiMedium of medium/smbus_espi.rs; the macro that packs its header and
--                            the crate `smbus_pec` are parameters. Smbus/Link and Smbus/Delivery put the
--                            sender, the medium and the receiver together
--
-- HID over I2C (embedded-service/src/hid, hid-service/src/i2c). A host writes commands over the bus, which
-- the service reads and passes on to a device.
--   Hid/Error, Hid/Opcode    hid/mod.rs and hid/command.rs: errors, and the fields of a command word
--   Hid/Command              hid/command.rs: Command::new and encode_into_slice
--   Hid/Descriptor           hid/mod.rs: the descriptor and its bytes
--   Hid/Host                 i2c/host.rs: process_register_access and what it calls, over the bytes that the
--                            host writes and the shared buffer
-- An encoder gets the size of the buffer that is left and gives the bytes it writes; what a refused encoder
-- has left in the buffer is not modelled.
--
-- Battery messages (battery-service-relay/src/serialization.rs, battery-service-interface/src/lib.rs). A host's
-- requests to the battery service and its responses, written to buffers at fixed offsets.
--   Battery/Buffer           safe_get_* and safe_put_*; Buffer/Layout: rows of fields
--   Battery/Message          BatteryCmd and the data of the messages; the types of embedded_batteries_async are
--                            the u32 they are sent as, with a parameter that says which u32 are values
--   Battery/Response, Battery/Request   AcpiBatteryResponse and AcpiBatteryRequest
--
-- Keyboard (keyboard-service/src).
--   Keyboard/Ghost           gpio_kb.rs: has_ghost, over columns of keys
--   Keyboard/Scan            gpio_kb.rs: Runner::scan_cycle and run, over the rounds of the loop; the crate
--                            `keyberon` is a parameter
--
-- HID relay (embedded-service/src/relay/hid.rs). The report descriptors of several devices become one, with a
-- map between the host's report identifiers and theirs.
--   Relay/Item               DescriptorItems: the items of a descriptor, with a position in its bytes
--   Relay/Descriptor         HidReportDescriptor::new; the array of reports is a function
--   Relay/Blocks, Relay/IdMap   BlockBoundaries, ReportIdMap and ReportIdMapBuilder; a table is a list
--   Relay/Combine            ReportIdMap::combine; the output buffer is its size and what was written
--
-- Power button (power-button-service/src).
--   PowerButton/Debounce     debounce.rs: the debouncer, over a list of readings of the pin
--
-- Numbers. Every u32 sum and cast of the sources wraps in the model, saturating subtractions stop at
-- 0, and timestamps are natural numbers. The loops run over lists or
-- counters, and endless tasks are modelled by one round of their loop. Four loops run on fuel. The caller's
-- loop over the packets of a message (send_all) takes a byte at least in every round, so the length of the
-- message is enough. Runner::run of the keyboard takes a round at least in every iteration, so the number
-- of rounds is enough. A descriptor has no more items than bytes (collect). The walk of `serialize` over
-- the body that it wrote (redecode) takes a byte at least in each round, so the length of that body is
-- enough.
--
-- Base holds the shared helpers: Boolean tests, results, methods that may fail (Exec), stores of shared
-- objects, 16-bit signed integers. The modules named Tests hold examples, Fixture the devices they use.
--
-- Not modelled: the other services and crates of the repository (the battery service itself, CFU, thermal,
-- type-C, MCTP's messages, the macros of the relay and so on), logging, the executor and its locks, the
-- capability flags beyond `unconstrained_power`, the bytes of ACPI timestamps, and the event receivers of the power policy.
pub mod Base
pub mod PowerPolicy
pub mod TimeAlarm
pub mod Mctp
pub mod Hid
pub mod Relay
pub mod Battery
pub mod Keyboard
pub mod PowerButton
