-- ===== src/PowerPolicy/Device/Laws.antt =====
-- What a PSU driver promises of its state: a connect or a disconnect that succeeds has moved the
-- state machine, and a connect that fails has not. Nothing is asked of a disconnect that fails:
-- State::disconnect enters the idle state all the same, and a driver that fails before it calls that
-- leaves the state alone (type-c-service/src/controller/power.rs can do either).
use embedded_services.Base.{◌≡◌, ok, err}
use embedded_services.PowerPolicy.Capability.{ConsumerPowerCapability, ProviderPowerCapability}
use embedded_services.PowerPolicy.Psu.{Error, PsuState}
use embedded_services.PowerPolicy.Device.{PsuDriver}

pub record PsuLaws (P : Type 0) (d : PsuDriver P) : Type 0 where
  pub connected_consumer :
      (c : ConsumerPowerCapability) (p : P)
      → (d.connect_consumer c p).0 ≡ ok tt
      → (d.state (d.connect_consumer c p).1).psu_state ≡ PsuState.connected_consumer c
  pub refused_consumer :
      (c : ConsumerPowerCapability) (p : P) (e : Error)
      → (d.connect_consumer c p).0 ≡ err e
      → d.state (d.connect_consumer c p).1 ≡ d.state p
  pub connected_provider :
      (c : ProviderPowerCapability) (p : P)
      → (d.connect_provider c p).0 ≡ ok tt
      → (d.state (d.connect_provider c p).1).psu_state ≡ PsuState.connected_provider c
  pub refused_provider :
      (c : ProviderPowerCapability) (p : P) (e : Error)
      → (d.connect_provider c p).0 ≡ err e
      → d.state (d.connect_provider c p).1 ≡ d.state p
  pub disconnected :
      (p : P) → (d.disconnect p).0 ≡ ok tt → (d.state (d.disconnect p).1).psu_state ≡ PsuState.idle
