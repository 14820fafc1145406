-- ===== src/PowerPolicy/Service/Consumer/Switch.antt =====
-- The order of the calls that a switch of consumers makes.
use embedded_services.Base.{
  ◌≡◌, refl, ◌∙◌, ap, true, List, ◌∷◌, ◌++◌, some, ok, arith, if◌then◌else◌,
}
use embedded_services.Base.Exec.{Exec}
use embedded_services.PowerPolicy.Capability.{DisconnectFlags}
use embedded_services.PowerPolicy.Psu.{is_connected_consumer}
use embedded_services.PowerPolicy.Event.{Event}
use embedded_services.PowerPolicy.Device.{PsuDriver, ChargerDriver, Notifier}
use embedded_services.PowerPolicy.Service.{
  Service, AvailableConsumer, Effect, psu_disconnect, psu_connect_consumer, broadcast, wait_ms,
  psu_state,
}
use embedded_services.PowerPolicy.Service.Consumer.{
  connect_new_consumer, same_consumer, switch_consumer, disconnect_reason,
}
use embedded_services.PowerPolicy.Service.Consumer.Chargers.{detach_calls, attach_calls, Calls}

module _ {P C N K : Type 0} ⦃pd : PsuDriver P⦄ ⦃cd : ChargerDriver C⦄ ⦃nd : Notifier N⦄ where
  -- From `s` to `t`, the new consumer was connected, chargers attached and the consumer announced.
  abbrev pub Entered : AvailableConsumer → Service P C N K → Service P C N K → Type 0
  Entered new s t =
      let c = new.consumer_power_capability in
      (xs : List Effect) × (t.effects
        ≡ broadcast (Event.consumer_connected new.psu c)
          ∷ (xs ++ wait_ms 800 ∷ psu_connect_consumer new.psu c ∷ s.effects))
      × Calls (λ u a. attach_calls u c a) s xs
      × (t.state.current_consumer_state ≡ some new)

  -- From `s` to `u`, the current consumer was disconnected, chargers detached and that announced.
  abbrev pub Left :
      AvailableConsumer
      → AvailableConsumer
      → DisconnectFlags
      → Service P C N K
      → Service P C N K
      → Type 0
  Left current new f s u =
      (ys : List Effect) × (u.effects
        ≡ broadcast (
            Event.consumer_disconnected current.psu
              (record { reason = some (disconnect_reason current.psu new.psu f) }))
          ∷ (ys
              ++ (if is_connected_consumer (psu_state s current.psu)
                  then psu_disconnect current.psu ∷ s.effects
                  else s.effects)))
      × Calls detach_calls s ys

  -- Selecting the consumer that is already connected does nothing at all.
  pub connect_new_consumer-same :
      (current new : AvailableConsumer) (f : DisconnectFlags) (s : Service P C N K)
      → s.state.current_consumer_state ≡ some current
      → current.psu ≡ new.psu
      → current.consumer_power_capability ≡ new.consumer_power_capability
      → connect_new_consumer new f s ≡ (ok tt, s)
  unfolding connect_new_consumer
  connect_new_consumer-same current new f s e p c =
      ap (λ o. switch_consumer o new f s) e ∙ rw (same p c) refl
    where
      same :
          current.psu ≡ new.psu
          → current.consumer_power_capability ≡ new.consumer_power_capability
          → same_consumer current new ≡ true
      same p c = ground arith
