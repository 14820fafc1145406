-- ===== src/PowerPolicy/Psu.antt =====
-- power-policy-interface/src/psu/mod.rs: the state that the policy keeps of a power supply unit.
pub mod Table
use embedded_services.Base.{
  ◌≡◌, Bool, true, false, List, [], ◌∷◌, Option, none, some, Result, ok, err, is_eq, ℕ_discrete,
  if◌then◌else◌,
}
use embedded_services.PowerPolicy.Capability.{
  PowerCapability, ConsumerPowerCapability, ProviderPowerCapability,
}
use embedded_services.PowerPolicy.Charger.{ChargerError}

pub data StateKind : Type 0 where
  detached idle connected_provider connected_consumer : StateKind

pub data Error : Type 0 where
  invalid_device invalid_response busy timeout bus failed : Error
  cannot_provide cannot_consume : Option PowerCapability → Error
  invalid_state : List StateKind → StateKind → Error
  charger : ChargerError → Error

pub data PsuState : Type 0 where
  idle detached : PsuState
  connected_provider : ProviderPowerCapability → PsuState
  connected_consumer : ConsumerPowerCapability → PsuState

unfoldable pub kind : PsuState → StateKind
kind PsuState.idle = StateKind.idle
kind (PsuState.connected_provider c) = StateKind.connected_provider
kind (PsuState.connected_consumer c) = StateKind.connected_consumer
kind PsuState.detached = StateKind.detached

pub record State : Type 0 where
  pub psu_state : PsuState
  pub consumer_capability : Option ConsumerPowerCapability
  pub requested_provider_capability : Option ProviderPowerCapability

abbrev pub default_state : State
default_state = record {
  psu_state = PsuState.detached;
  consumer_capability = none;
  requested_provider_capability = none;
}

abbrev pub Outcome : Type 0
Outcome = Result (Unit {0}) Error × State

-- The tests of the methods, each with the states that its error names.
abbrev attach_check : PsuState → Result (Unit {0}) Error
attach_check PsuState.detached = ok tt
attach_check p = err (invalid_state (StateKind.detached ∷ []) (kind p))

abbrev disconnect_check : PsuState → Result (Unit {0}) Error
disconnect_check PsuState.detached = err (
    invalid_state
      (StateKind.connected_consumer ∷ StateKind.connected_provider ∷ StateKind.idle ∷ [])
      (kind PsuState.detached))
disconnect_check p = ok tt

abbrev consumer_update_check : PsuState → Result (Unit {0}) Error
consumer_update_check PsuState.detached = err (
    invalid_state
      (StateKind.idle ∷ StateKind.connected_consumer ∷ StateKind.connected_provider ∷ [])
      (kind PsuState.detached))
consumer_update_check p = ok tt

abbrev pub provider_update_check : PsuState → Result (Unit {0}) Error
provider_update_check PsuState.detached = err (
    invalid_state
      (StateKind.idle ∷ StateKind.connected_provider ∷ StateKind.connected_consumer ∷ [])
      (kind PsuState.detached))
provider_update_check p = ok tt

-- The result is computed before the state is set, and the state is set on every path.
unfoldable pub attach : State → Outcome
attach s = (attach_check s.psu_state, record s { psu_state = PsuState.idle })

unfoldable pub detach : State → State
detach s = record {
  psu_state = PsuState.detached;
  consumer_capability = none;
  requested_provider_capability = none;
}

unfoldable pub disconnect : Bool → State → Outcome
disconnect clear_caps s =
    let s' : State = record s { psu_state = PsuState.idle } in
    (
      disconnect_check s.psu_state,
      if clear_caps
          then record s' { consumer_capability = none; requested_provider_capability = none }
          else s',
    )

unfoldable pub update_consumer_power_capability : Option ConsumerPowerCapability → State → Outcome
update_consumer_power_capability c s =
    (consumer_update_check s.psu_state, record s { consumer_capability = c })

unfoldable pub Requested-discrete : Discrete (Option ProviderPowerCapability)
Requested-discrete = hlevel ℕ_discrete

unfoldable pub update_requested_provider_power_capability :
    Option ProviderPowerCapability → State → Outcome
unfolding Requested-discrete
update_requested_provider_power_capability c s =
    if is_eq Requested-discrete s.requested_provider_capability c
    then (ok tt, s)
    else (provider_update_check s.psu_state, record s { requested_provider_capability = c })

consumer_check : PsuState → Result (Unit {0}) Error
unfolding kind
consumer_check PsuState.idle = ok tt
consumer_check (PsuState.connected_consumer c) = ok tt
consumer_check p = err (invalid_state (StateKind.idle ∷ StateKind.connected_consumer ∷ []) (kind p))

unfoldable pub can_connect_consumer : State → Result (Unit {0}) Error
unfolding consumer_check
can_connect_consumer s = consumer_check s.psu_state

-- `?`: an error returns early, and leaves the state.
abbrev on_ok : Result (Unit {0}) Error → State → State → Outcome
on_ok (ok u) s' s = (ok tt, s')
on_ok (err e) s' s = (err e, s)

unfoldable pub connect_consumer : ConsumerPowerCapability → State → Outcome
unfolding can_connect_consumer
connect_consumer c s =
    on_ok (can_connect_consumer s) (record s { psu_state = PsuState.connected_consumer c }) s

provider_check : PsuState → Result (Unit {0}) Error
unfolding kind
provider_check PsuState.idle = ok tt
provider_check (PsuState.connected_provider c) = ok tt
provider_check p = err (invalid_state (StateKind.idle ∷ StateKind.connected_provider ∷ []) (kind p))

unfoldable pub can_connect_provider : State → Result (Unit {0}) Error
unfolding provider_check
can_connect_provider s = provider_check s.psu_state

unfoldable pub connect_provider : ProviderPowerCapability → State → Outcome
unfolding can_connect_provider
connect_provider c s =
    on_ok (can_connect_provider s) (record s { psu_state = PsuState.connected_provider c }) s

provided : PsuState → Option ProviderPowerCapability
provided (PsuState.connected_provider c) = some c
provided _ = none

unfoldable pub connected_provider_capability : State → Option ProviderPowerCapability
unfolding provided
connected_provider_capability s = provided s.psu_state

consuming : PsuState → Bool
consuming (PsuState.connected_consumer c) = true
consuming _ = false

-- `matches!(psu_state, PsuState::ConnectedConsumer(_))`, as the service tests it.
unfoldable pub is_connected_consumer : State → Bool
unfolding consuming
is_connected_consumer s = consuming s.psu_state
