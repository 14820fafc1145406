-- ===== src/PowerPolicy/Charger.antt =====
-- power-policy-interface/src/charger: the charger's state machine. A method that returns a result
-- gives it beside the new state.
pub mod Chart
use embedded_services.Base.{Bool, true, false, Option, none, some, Result, ok, err}
use embedded_services.PowerPolicy.Capability.{ConsumerPowerCapability}

pub data PoweredSubstate : Type 0 where
  init psu_attached psu_detached : PoweredSubstate

pub data InternalState : Type 0 where
  unpowered : InternalState
  powered : PoweredSubstate → InternalState

pub data ChargerError : Type 0 where
  invalid_state : InternalState → ChargerError
  timeout bus_error unknown_event : ChargerError

-- Whether the hardware sees a supply.
pub data SupplyState : Type 0 where
  attached detached : SupplyState

pub record State : Type 0 where
  pub state : InternalState
  pub capability : Option ConsumerPowerCapability

abbrev pub default_state : State
default_state = record { state = unpowered; capability = none }

abbrev pub Outcome : Type 0
Outcome = Result (Unit {0}) ChargerError × State

abbrev settled : SupplyState → InternalState
settled attached = powered psu_attached
settled detached = powered psu_detached

initialized_from : InternalState → SupplyState → State → Outcome
initialized_from (powered init) p s = (ok tt, record s { state = settled p })
initialized_from other p s = (err (invalid_state other), s)

unfoldable pub on_initialized : SupplyState → State → Outcome
unfolding initialized_from
on_initialized p s = initialized_from s.state p s

changed_from : InternalState → SupplyState → State → Outcome
changed_from (powered psu_attached) detached s = (ok tt, record s { state = powered psu_detached })
changed_from (powered psu_attached) attached s = (ok tt, s)
changed_from (powered psu_detached) attached s = (ok tt, record s { state = powered psu_attached })
changed_from (powered psu_detached) detached s = (ok tt, s)
changed_from other p s = (err (invalid_state other), s)

unfoldable pub on_psu_state_change : SupplyState → State → Outcome
unfolding changed_from
on_psu_state_change p s = changed_from s.state p s

unfoldable pub on_timeout : State → State
on_timeout s = record { state = unpowered; capability = none }

unfoldable pub on_ready_success : State → State
on_ready_success s = elim s.state [
  | unpowered ↦ record { state = powered init; capability = none }
  | powered p ↦ s
]

unfoldable pub on_ready_failure : State → State
on_ready_failure s = elim s.state [ unpowered ↦ s | powered p ↦ record s { state = unpowered } ]

unfoldable pub on_policy_attach : ConsumerPowerCapability → State → State
on_policy_attach c s = record s { capability = some c }

unfoldable pub on_policy_detach : State → State
on_policy_detach s = record s { capability = none }

unfoldable pub is_unpowered : State → Bool
is_unpowered s = elim s.state [ unpowered ↦ true | powered p ↦ false ]
