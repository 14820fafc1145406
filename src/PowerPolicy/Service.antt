-- ===== src/PowerPolicy/Service.antt =====
-- power-policy-service/src/service/mod.rs and config.rs: the service's state, and the calls that it
-- makes on other objects. PSUs and chargers are shared objects in a store and are named by address.
pub mod Consumer
pub mod Provider
pub mod Handlers
use embedded_services.Base.{ℕ, ◌≡◌, Bool, List, [], ◌∷◌, map, Option, none, some, Result, ok, err}
use embedded_services.Base.Store.{write}
use embedded_services.Base.Exec.{Exec, pure, fail, modify}
use embedded_services.PowerPolicy.Capability.{
  PowerCapability, ConsumerPowerCapability, ProviderPowerCapability, DisconnectFlags,
}
use embedded_services.PowerPolicy.Charger
use embedded_services.PowerPolicy.Charger.{ChargerError, SupplyState}
use embedded_services.PowerPolicy.Psu
use embedded_services.PowerPolicy.Psu.{Error, charger}
use embedded_services.PowerPolicy.Event.{Event, UnconstrainedState, default_unconstrained}
use embedded_services.PowerPolicy.Device.{PsuDriver, ChargerDriver, Notifier, IndexSet}

-- config.rs
pub record Config : Type 0 where
  pub limited_power_threshold_mw : ℕ
  pub provider_unlimited : PowerCapability
  pub provider_limited : PowerCapability
  pub min_consumer_threshold_mw : Option ℕ

abbrev pub default_config : Config
default_config = record {
  limited_power_threshold_mw = 15000;
  provider_unlimited = record { voltage_mv = 5000; current_ma = 3000 };
  provider_limited = record { voltage_mv = 5000; current_ma = 1500 };
  min_consumer_threshold_mw = none;
}

-- provider.rs
pub data PowerState : Type 0 where
  unlimited limited : PowerState

-- consumer.rs
pub record AvailableConsumer : Type 0 where
  pub psu : ℕ
  pub consumer_power_capability : ConsumerPowerCapability

-- A call on another object. The service does not keep these: they record, newest first, what it
-- has done to its surroundings.
pub data Effect : Type 0 where
  psu_disconnect : ℕ → Effect
  psu_connect_consumer : ℕ → ConsumerPowerCapability → Effect
  psu_connect_provider : ℕ → ProviderPowerCapability → Effect
  charger_is_ready charger_init charger_detach : ℕ → Effect
  charger_attach : ℕ → ConsumerPowerCapability → Effect
  broadcast : Event → Effect
  wait_ms : ℕ → Effect

pub record InternalState (K : Type 0) : Type 0 where
  pub current_consumer_state : Option AvailableConsumer
  pub current_provider_state : PowerState
  pub unconstrained : UnconstrainedState
  pub connected_providers : K

-- The service with what it holds references to: `psus`, `chargers` and `notifiers` are the
-- registration, `psu_at` and `charger_at` the objects, `effects` the calls made so far.
pub record Service (P C N K : Type 0) : Type 0 where
  pub psus : List ℕ
  pub chargers : List ℕ
  pub notifiers : List N
  pub state : InternalState K
  pub config : Config
  pub psu_at : ℕ → P
  pub charger_at : ℕ → C
  pub effects : List Effect

module _ {P C N K : Type 0} where
  -- Assignments to the fields of `self.state`.
  abbrev pub set_consumer : Option AvailableConsumer → Service P C N K → Service P C N K
  set_consumer c s = record s { state = record (s.state) { current_consumer_state = c } }

  abbrev pub set_power : PowerState → Service P C N K → Service P C N K
  set_power p s = record s { state = record (s.state) { current_provider_state = p } }

  abbrev pub set_unconstrained : UnconstrainedState → Service P C N K → Service P C N K
  set_unconstrained u s = record s { state = record (s.state) { unconstrained = u } }

  abbrev pub set_providers : K → Service P C N K → Service P C N K
  set_providers k s = record s { state = record (s.state) { connected_providers = k } }

  -- Timer::after_millis(t).await
  abbrev pub wait : ℕ → Service P C N K → Service P C N K
  wait t s = record s { effects = wait_ms t ∷ s.effects }

module _ {P C N K : Type 0} ⦃k : IndexSet K⦄ where
  -- Service::new_with_customization, with the objects that the registration refers to.
  unfoldable pub new : List ℕ → List ℕ → List N → Config → (ℕ → P) → (ℕ → C) → Service P C N K
  new ps cs ns cfg psu_at charger_at = record {
    psus = ps;
    chargers = cs;
    notifiers = ns;
    state = record {
      current_consumer_state = none;
      current_provider_state = unlimited;
      unconstrained = default_unconstrained;
      connected_providers = k.empty;
    };
    config = cfg;
    psu_at = psu_at;
    charger_at = charger_at;
    effects = [];
  }

module _ {P C N K : Type 0} ⦃d : PsuDriver P⦄ where
  -- psu.lock().await.state()
  abbrev pub psu_state : Service P C N K → ℕ → Psu.State
  psu_state s a = d.state (s.psu_at a)

  abbrev psu_call :
      Effect → ℕ → (P → Result (Unit {0}) Error × P) → Exec (Service P C N K) Error (Unit {0})
  psu_call e a method s =
      let r = method (s.psu_at a) in
      (r.0, record s { psu_at = write s.psu_at a r.1; effects = e ∷ s.effects })

  unfoldable pub call_disconnect : ℕ → Exec (Service P C N K) Error (Unit {0})
  call_disconnect a = psu_call (psu_disconnect a) a d.disconnect

  unfoldable pub call_connect_consumer :
      ℕ → ConsumerPowerCapability → Exec (Service P C N K) Error (Unit {0})
  call_connect_consumer a c = psu_call (psu_connect_consumer a c) a (d.connect_consumer c)

  unfoldable pub call_connect_provider :
      ℕ → ProviderPowerCapability → Exec (Service P C N K) Error (Unit {0})
  call_connect_provider a c = psu_call (psu_connect_provider a c) a (d.connect_provider c)

-- `.map_err(|e| Error::Charger(e.into()))`
abbrev charger_result {ℓ} : {A : Type ℓ} → Result A ChargerError → Result (Unit {0}) Error
charger_result (ok a) = ok tt
charger_result (err e) = err (charger e)

module _ {P C N K : Type 0} ⦃d : ChargerDriver C⦄ where
  abbrev pub charger_state : Service P C N K → ℕ → Charger.State
  charger_state s a = d.state (s.charger_at a)

  abbrev charger_call {ℓ} :
      {A : Type ℓ}
      → Effect
      → ℕ
      → (C → Result A ChargerError × C)
      → Exec (Service P C N K) Error (Unit {0})
  charger_call e a method s =
      let r = method (s.charger_at a) in
      (
        charger_result r.0,
        record s { charger_at = write s.charger_at a r.1; effects = e ∷ s.effects },
      )

  unfoldable pub call_is_ready : ℕ → Exec (Service P C N K) Error (Unit {0})
  call_is_ready a = charger_call (charger_is_ready a) a d.is_ready

  unfoldable pub call_init_charger : ℕ → Exec (Service P C N K) Error (Unit {0})
  call_init_charger a = charger_call (charger_init a) a d.init_charger

  unfoldable pub call_attach_handler :
      ℕ → ConsumerPowerCapability → Exec (Service P C N K) Error (Unit {0})
  call_attach_handler a c = charger_call (charger_attach a c) a (d.attach_handler c)

  unfoldable pub call_detach_handler : ℕ → Exec (Service P C N K) Error (Unit {0})
  call_detach_handler a = charger_call (charger_detach a) a d.detach_handler

-- Each notifier is called in turn; what it returns is logged and otherwise dropped.
module _ {P C N K : Type 0} ⦃d : Notifier N⦄ where
  abbrev notify_all : Event → (N → N) → Service P C N K → Service P C N K
  notify_all e f s = record s { notifiers = map f s.notifiers; effects = broadcast e ∷ s.effects }

  unfoldable pub notify_unconstrained : UnconstrainedState → Service P C N K → Service P C N K
  notify_unconstrained u = notify_all (Event.unconstrained u) (λ n. (d.notify_unconstrained u n).1)

  unfoldable pub notify_consumer_connected :
      ℕ → ConsumerPowerCapability → Service P C N K → Service P C N K
  notify_consumer_connected a c =
      notify_all (Event.consumer_connected a c) (λ n. (d.notify_consumer_connected a c n).1)

  unfoldable pub notify_consumer_disconnected :
      ℕ → DisconnectFlags → Service P C N K → Service P C N K
  notify_consumer_disconnected a f =
      notify_all (Event.consumer_disconnected a f) (λ n. (d.notify_consumer_disconnected a f n).1)

  unfoldable pub notify_provider_connected :
      ℕ → ProviderPowerCapability → Service P C N K → Service P C N K
  notify_provider_connected a c =
      notify_all (Event.provider_connected a c) (λ n. (d.notify_provider_connected a c n).1)

  unfoldable pub notify_provider_disconnected : ℕ → Service P C N K → Service P C N K
  notify_provider_disconnected a =
      notify_all (Event.provider_disconnected a) (λ n. (d.notify_provider_disconnected a n).1)
