-- ===== src/PowerPolicy/Service/Handlers.antt =====
-- power-policy-service/src/service/mod.rs: the handlers of the events that PSUs and chargers send,
-- and the task that runs them.
pub mod Exclusive
use embedded_services.Base.{ℕ, List, [], ◌∷◌, Option, none, some, Result, ok, err}
use embedded_services.Base.Exec.{Exec, ◌>>=◌, ◌>>◌, pure, modify}
use embedded_services.PowerPolicy.Capability.{
  ConsumerPowerCapability, ProviderPowerCapability, DisconnectReason, DisconnectFlags,
  default_disconnect_flags,
}
use embedded_services.PowerPolicy.Charger.{SupplyState}
use embedded_services.PowerPolicy.Psu.{Error}
use embedded_services.PowerPolicy.Device.{PsuDriver, ChargerDriver, Notifier, IndexSet}
use embedded_services.PowerPolicy.Service.{Service}
use embedded_services.PowerPolicy.Service.Consumer.{update_current_consumer}
use embedded_services.PowerPolicy.Service.Provider.{connect_provider, post_provider_removed}

-- power-policy-interface/src/psu/event.rs
pub data EventData : Type 0 where
  attached detached : EventData
  updated_consumer_capability : Option ConsumerPowerCapability → EventData
  requested_provider_capability : Option ProviderPowerCapability → EventData
  disconnected : DisconnectFlags → EventData

-- What a task receives: an event of the PSU at an address, or of a charger.
pub data TaskEvent : Type 0 where
  psu_event : ℕ → EventData → TaskEvent
  charger_event : ℕ → SupplyState → TaskEvent

module _ {P C N K : Type 0} ⦃pd : PsuDriver P⦄ ⦃cd : ChargerDriver C⦄ ⦃nd : Notifier N⦄
    ⦃k : IndexSet K⦄ where
  unfoldable pub process_notify_attached : ℕ → Exec (Service P C N K) Error (Unit {0})
  process_notify_attached a = pure tt

  -- A provider that has gone is taken off the books, then the consumer is chosen anew.
  unfoldable pub remove_and_update : ℕ → DisconnectFlags → Exec (Service P C N K) Error (Unit {0})
  remove_and_update a f = do modify (λ s. (post_provider_removed a s).1); update_current_consumer f

  unfoldable pub process_notify_detached : ℕ → Exec (Service P C N K) Error (Unit {0})
  unfolding remove_and_update
  process_notify_detached a =
      remove_and_update a (record { reason = some DisconnectReason.detached })

  unfoldable pub process_notify_updated_consumer_capability :
      ℕ → Option ConsumerPowerCapability → Exec (Service P C N K) Error (Unit {0})
  process_notify_updated_consumer_capability a c = update_current_consumer default_disconnect_flags

  unfoldable pub process_notify_requested_provider_capability :
      ℕ → Option ProviderPowerCapability → Exec (Service P C N K) Error (Unit {0})
  process_notify_requested_provider_capability a c = connect_provider a

  unfoldable pub process_notify_disconnected :
      ℕ → DisconnectFlags → Exec (Service P C N K) Error (Unit {0})
  unfolding remove_and_update
  process_notify_disconnected a f = remove_and_update a f

  unfoldable pub process_psu_event : ℕ → EventData → Exec (Service P C N K) Error (Unit {0})
  unfolding process_notify_attached process_notify_detached
      process_notify_updated_consumer_capability process_notify_requested_provider_capability
      process_notify_disconnected
  process_psu_event a attached = process_notify_attached a
  process_psu_event a detached = process_notify_detached a
  process_psu_event a (updated_consumer_capability c) =
      process_notify_updated_consumer_capability a c
  process_psu_event a (requested_provider_capability c) =
      process_notify_requested_provider_capability a c
  process_psu_event a (disconnected f) = process_notify_disconnected a f

  unfoldable pub process_psu_state_change :
      ℕ → SupplyState → Exec (Service P C N K) Error (Unit {0})
  process_psu_state_change a p = pure tt

  unfoldable pub process_charger_event : ℕ → SupplyState → Exec (Service P C N K) Error (Unit {0})
  unfolding process_psu_state_change
  process_charger_event a p = process_psu_state_change a p

  -- task.rs: one round of the unified task; an error is logged and the loop goes on.
  unfoldable pub task_step : TaskEvent → Service P C N K → Service P C N K
  task_step (psu_event a e) s = (process_psu_event a e s).1
  task_step (charger_event a p) s = (process_charger_event a p s).1

  -- The task after the events that it has received.
  unfoldable pub task : List TaskEvent → Service P C N K → Service P C N K
  task [] s = s
  task (e ∷ events) s = task events (task_step e s)
