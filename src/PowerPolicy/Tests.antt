-- ===== src/PowerPolicy/Tests.antt =====
-- Examples: the theorems on the power policy at concrete services.
mod Charts
use embedded_services.Base.{
  ℕ, ◌≤◌, ◌*◌, ◌/◌, ◌&&◌, not, ◌≡◌, refl, ap, ◌⊎◌, inl, inr, Bool, true, false, List, [], ◌∷◌,
  Option, none, some, Result, ok, err, arith, ◌==◌, if◌then◌else◌, ℕ_discrete, Bool-cases, ltb,
}
use embedded_services.Base.Exec.{for_each}
use embedded_services.PowerPolicy.Capability.{
  PowerCapability, ConsumerPowerCapability, ProviderPowerCapability, consumer_of, provider_of,
  default_disconnect_flags, ConsumerPowerCapability-discrete, max_power_mw,
}
use embedded_services.PowerPolicy.Capability.Bounds.{max_power_mw_exact}
use embedded_services.PowerPolicy.Charger
use embedded_services.PowerPolicy.Psu
use embedded_services.PowerPolicy.Psu.{
  PsuState, StateKind, failed, is_connected_consumer, can_connect_provider, can_connect_consumer,
  connected_provider_capability,
}
use embedded_services.PowerPolicy.Event.{Event, UnconstrainedState}
use embedded_services.PowerPolicy.Service.{
  Service, AvailableConsumer, PowerState, unlimited, limited, default_config, psu_connect_provider,
  psu_state, call_connect_provider, call_disconnect, notify_provider_connected, Effect, broadcast,
  call_connect_consumer, call_is_ready, call_init_charger, call_attach_handler, call_detach_handler,
  notify_unconstrained, notify_consumer_connected, notify_consumer_disconnected,
  notify_provider_disconnected,
}
use embedded_services.PowerPolicy.Service.Consumer.{
  connect_new_consumer, find_best_consumer_default, cmp_consumer_capability_default,
  update_current_consumer, update_unconstrained_state, search_consumers, consider, follow_best,
  leave_consumer, enter_consumer, disconnect_if_connected, disconnect_chargers, detach_charger,
  disconnect_reason, post_consumer_connected, attach_charger, new_unconstrained,
  count_unconstrained, offers_unconstrained, UnconstrainedState-discrete,
}
use embedded_services.PowerPolicy.Service.Consumer.Best.{Chosen, find_best_consumer_default_lem}
use embedded_services.PowerPolicy.Service.Consumer.Exclusive.{IsExclusive, CanLeave, consumes}
use embedded_services.PowerPolicy.Service.Consumer.Switch.{connect_new_consumer-same}
use embedded_services.PowerPolicy.Service.Consumer.Unconstrained.{
  update_current_consumer-unconstrained,
}
use embedded_services.PowerPolicy.Service.Consumer.Announced.{
  IsAnnounced, update_unconstrained_state-IsAnnounced,
}
use embedded_services.PowerPolicy.Service.Provider.Outcome.{
  Refused, Failed, Granted, connect_provider_outcome, post_provider_removed_lem, removed_once,
}
use embedded_services.PowerPolicy.Service.Handlers.{
  EventData, detached, updated_consumer_capability, process_psu_event,
}
use embedded_services.PowerPolicy.Service.Handlers.Exclusive.{
  IsBacked, process_psu_event-IsExclusive,
}
use embedded_services.PowerPolicy.Service.Provider.{
  connect_provider, request_provider, post_provider_connected, post_provider_removed,
  compute_total_provider_power_mw, requested_supply, supply_of, total_power_from, power_state_for,
  target_power,
}
use embedded_services.PowerPolicy.Service.Provider.Totals.{sum_power, compute_total_exact}
use embedded_services.PowerPolicy.Service.Provider.Budget.{
  request_target, request_power, connect_provider-within_budget,
}
use embedded_services.PowerPolicy.Fixture.{
  TestPsu, test_psu, test_psu_laws, test_charger, test_notifier, test_set, test_set_laws, leave,
  provide, consume, insert, contains, without,
}

abbrev low_power : PowerCapability
low_power = record { voltage_mv = 5000; current_ma = 2000 }

abbrev high_power : PowerCapability
high_power = record { voltage_mv = 20000; current_ma = 3000 }

-- PSU 0 is consumed from, PSU 1 has more to offer, PSU 2 asks for power.
abbrev consuming_psu : Bool → TestPsu
consuming_psu works = record {
  state = record {
    psu_state = PsuState.connected_consumer (consumer_of low_power);
    consumer_capability = some (consumer_of low_power);
    requested_provider_capability = none;
  };
  works = works;
}

abbrev offering_psu : TestPsu
offering_psu = record {
  state = record {
    psu_state = PsuState.idle;
    consumer_capability = some (consumer_of high_power);
    requested_provider_capability = none;
  };
  works = true;
}

abbrev asking_psu : TestPsu
asking_psu = record {
  state = record {
    psu_state = PsuState.idle;
    consumer_capability = none;
    requested_provider_capability = some (provider_of low_power);
  };
  works = true;
}

abbrev low_consumer : AvailableConsumer
low_consumer = record { psu = 0; consumer_power_capability = consumer_of low_power }

abbrev high_consumer : AvailableConsumer
high_consumer = record { psu = 1; consumer_power_capability = consumer_of high_power }

-- The service, with a PSU 0 that works or does not.
abbrev desk : Bool → Service TestPsu Charger.State (List Event) (List ℕ)
desk works = record {
  psus = 0 ∷ 1 ∷ 2 ∷ [];
  chargers = 0 ∷ [];
  notifiers = [] ∷ [];
  state = record {
    current_consumer_state = some low_consumer;
    current_provider_state = unlimited;
    unconstrained = record { unconstrained = false; available = 0 };
    connected_providers = [];
  };
  config = default_config;
  psu_at = λ a. if a == 0 then consuming_psu works else if a == 1 then offering_psu else asking_psu;
  charger_at = λ a. Charger.default_state;
  effects = [];
}

desk-consumes : (works : Bool) (a : ℕ) → consumes (desk works) a ≡ true → a ≡ 0
unfolding is_connected_consumer
desk-consumes works a h = ground arith

desk-IsExclusive : IsExclusive (desk true)
desk-IsExclusive = record { only = λ a h. rw (desk-consumes true a h) refl }

desk-CanLeave : CanLeave (desk true)
unfolding leave
desk-CanLeave a e = ground arith

desk-IsBacked : IsBacked (desk true)
desk-IsBacked a h =
    let z = desk-consumes true a h in (inl z, (consumer_of low_power, (rw z refl, refl)))

process_psu_event-IsExclusive_example :
    IsExclusive (process_psu_event 1 (updated_consumer_capability none) (desk true)).1
process_psu_event-IsExclusive_example =
    process_psu_event-IsExclusive test_psu_laws 1 (updated_consumer_capability none) (desk true)
      desk-IsExclusive desk-CanLeave desk-IsBacked

-- What an evaluation of the service unfolds.
evaluation : Unit {0}
unfolding process_psu_event update_current_consumer find_best_consumer_default search_consumers
    consider cmp_consumer_capability_default follow_best connect_new_consumer leave_consumer
    enter_consumer disconnect_if_connected disconnect_chargers detach_charger disconnect_reason
    post_consumer_connected attach_charger update_unconstrained_state new_unconstrained
    count_unconstrained offers_unconstrained UnconstrainedState-discrete
    ConsumerPowerCapability-discrete max_power_mw is_connected_consumer can_connect_consumer
    can_connect_provider connected_provider_capability call_disconnect call_connect_consumer
    call_connect_provider call_is_ready call_init_charger call_attach_handler call_detach_handler
    notify_unconstrained notify_consumer_connected notify_consumer_disconnected
    notify_provider_connected notify_provider_disconnected for_each connect_provider
    request_provider post_provider_connected post_provider_removed total_power_from power_state_for
    target_power compute_total_provider_power_mw sum_power leave provide consume insert contains
    without Charger.is_unpowered Charger.on_ready_success Charger.on_initialized
    Charger.on_policy_attach Charger.on_policy_detach ℕ_discrete
evaluation = tt

-- An update switches to PSU 1, and tells the notifier of it.
switches :
    let t = (update_current_consumer default_disconnect_flags (desk true)).1 in
    (t.state.current_consumer_state ≡ some high_consumer)
    × (consumes t 0 ≡ false)
    × (t.state.unconstrained ≡ record { unconstrained = false; available = 0 })
unfolding evaluation
switches = (refl, refl, refl)

connect_provider-within_budget_example :
    (connected_provider_capability (psu_state (connect_provider 2 (desk true)).1 2)
      ≡ some (request_target 2 (provider_of low_power) (desk true)))
    × (compute_total_provider_power_mw (connect_provider 2 (desk true)).1 ≤ 15000)
unfolding evaluation
connect_provider-within_budget_example =
    connect_provider-within_budget 2 (provider_of low_power) (desk true) test_psu_laws refl refl
      (omega arith) refl

find_best_consumer_default_lem_example :
    (o : Option AvailableConsumer) × (find_best_consumer_default cmp_consumer_capability_default
        (desk true)
      ≡ ok o)
    × Chosen (desk true) o
find_best_consumer_default_lem_example = find_best_consumer_default_lem (desk true)

-- A switch that cannot disconnect the current consumer returns the driver's error with the consumer out of
-- the books, although its PSU still consumes.
forgotten :
    let r = connect_new_consumer high_consumer default_disconnect_flags (desk false) in
    (r.0 ≡ err failed)
    × (r.1.state.current_consumer_state ≡ none)
    × (consumes r.1 low_consumer.psu ≡ true)
unfolding evaluation
forgotten = (refl, refl, refl)

update_current_consumer-unconstrained_example :
    let r = update_current_consumer default_disconnect_flags (desk true) in
    (r.0 ≡ ok tt → r.1.state.unconstrained ≡ new_unconstrained r.1)
    × ((e : Psu.Error) → r.0 ≡ err e → r.1.state.unconstrained ≡ (desk true).state.unconstrained)
update_current_consumer-unconstrained_example =
    update_current_consumer-unconstrained default_disconnect_flags (desk true)

update_unconstrained_state-IsAnnounced_example :
    IsAnnounced (desk true) (update_unconstrained_state (desk true))
update_unconstrained_state-IsAnnounced_example = update_unconstrained_state-IsAnnounced (desk true)

connect_provider_outcome_example :
    (((psu_state (desk true) 2).requested_provider_capability ≡ none
        → connect_provider 2 (desk true) ≡ (ok tt, desk true))
      × ((c : ProviderPowerCapability)
          → (psu_state (desk true) 2).requested_provider_capability ≡ some c
          → (Refused 2 c (desk true) ⊎ (Failed 2 c (desk true) ⊎ Granted 2 c (desk true)))
            × ((connect_provider 2 (desk true)).1.state.current_provider_state
                ≡ request_power 2 c (desk true))))
connect_provider_outcome_example = connect_provider_outcome 2 (desk true)

-- The desk after PSU 2 was granted its request.
abbrev lent_desk : Service TestPsu Charger.State (List Event) (List ℕ)
lent_desk = (connect_provider 2 (desk true)).1
