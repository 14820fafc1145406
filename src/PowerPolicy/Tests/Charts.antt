-- ===== src/PowerPolicy/Tests/Charts.antt =====
-- Examples: the state machines of the charger and of the PSU.
use embedded_services.Base.{◌≡◌, refl, ◌⊎◌}
use embedded_services.PowerPolicy.Capability.{ConsumerPowerCapability, consumer_of}
use embedded_services.PowerPolicy.Charger
use embedded_services.PowerPolicy.Charger.{
  InternalState, unpowered, powered, init, psu_attached, attached, invalid_state,
}
use embedded_services.PowerPolicy.Charger.Chart.{
  initialized, ready_success, Arrow, react, react-follows_chart,
}
use embedded_services.PowerPolicy.Psu
use embedded_services.PowerPolicy.Psu.{StateKind, kind, Error}

abbrev offer : ConsumerPowerCapability
offer = consumer_of (record { voltage_mv = 5000; current_ma = 3000 })

abbrev woken : Charger.State
woken = (react ready_success Charger.default_state).1

wakes : (react (initialized attached) woken).1.state ≡ powered psu_attached
unfolding react Charger.on_ready_success Charger.on_initialized
wakes = refl

react-follows_chart_example :
    ((react (initialized attached) woken).1.state ≡ woken.state)
    ⊎ Arrow (initialized attached) woken.state (react (initialized attached) woken).1.state
react-follows_chart_example = react-follows_chart (initialized attached) woken
