-- ===== src/PowerPolicy/Event.antt =====
-- power-policy-interface/src/service: what the service broadcasts, and the notifiers that put it on
-- a channel. A PSU is named by its address.
pub mod Senders
use embedded_services.Base.{ℕ, Bool, false}
use embedded_services.PowerPolicy.Capability.{
  ConsumerPowerCapability, ProviderPowerCapability, DisconnectFlags,
}

pub record UnconstrainedState : Type 0 where
  pub unconstrained : Bool
  pub available : ℕ

abbrev pub default_unconstrained : UnconstrainedState
default_unconstrained = record { unconstrained = false; available = 0 }

pub data Event : Type 0 where
  consumer_disconnected : ℕ → DisconnectFlags → Event
  consumer_connected : ℕ → ConsumerPowerCapability → Event
  provider_disconnected : ℕ → Event
  provider_connected : ℕ → ProviderPowerCapability → Event
  unconstrained : UnconstrainedState → Event

-- The same without the device.
pub data EventData : Type 0 where
  consumer_disconnected : DisconnectFlags → EventData
  consumer_connected : ConsumerPowerCapability → EventData
  provider_disconnected : EventData
  provider_connected : ProviderPowerCapability → EventData
  unconstrained : UnconstrainedState → EventData

unfoldable pub event_data : Event → EventData
event_data (Event.consumer_disconnected p d) = EventData.consumer_disconnected d
event_data (Event.consumer_connected p c) = EventData.consumer_connected c
event_data (Event.provider_disconnected p) = EventData.provider_disconnected
event_data (Event.provider_connected p c) = EventData.provider_connected c
event_data (Event.unconstrained u) = EventData.unconstrained u
