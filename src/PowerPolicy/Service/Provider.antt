-- ===== src/PowerPolicy/Service/Provider.antt =====
-- power-policy-service/src/service/provider.rs: how much power each attached device is given.
pub mod Totals
pub mod Budget
pub mod Outcome
use embedded_services.Base.{
  ℕ, ◌+◌, ◌%◌, ◌^◌, Bool, true, false, List, [], ◌∷◌, Option, none, some, Result, ok, err, ltb,
  ◌==◌, if◌then◌else◌,
}
use embedded_services.Base.Exec.{Exec, ◌>>=◌, ◌>>◌, pure, modify}
use embedded_services.PowerPolicy.Capability.{ProviderPowerCapability, max_power_mw}
use embedded_services.PowerPolicy.Psu.{Error, can_connect_provider, connected_provider_capability}
use embedded_services.PowerPolicy.Device.{PsuDriver, Notifier, IndexSet}
use embedded_services.PowerPolicy.Service.{
  Config, PowerState, limited, unlimited, Service, set_power, set_providers, psu_state,
  call_connect_provider, notify_provider_connected, notify_provider_disconnected,
}

abbrev pub power_of : Option ProviderPowerCapability → ℕ
power_of (some c) = max_power_mw c.capability
power_of none = 0

-- The `u32` sum over the PSUs, which wraps.
unfoldable pub total_power_from : (ℕ → Option ProviderPowerCapability) → ℕ → List ℕ → ℕ
total_power_from supply total [] = total
total_power_from supply total (a ∷ psus) =
    total_power_from supply ((total + power_of (supply a)) % 2 ^ 32) psus

unfoldable pub power_state_for : Config → ℕ → PowerState
power_state_for cfg total = if ltb cfg.limited_power_threshold_mw total then limited else unlimited

unfoldable pub target_power :
    Config → PowerState → ProviderPowerCapability → ProviderPowerCapability
target_power cfg limited requested = record requested { capability = cfg.provider_limited }
target_power cfg unlimited requested =
    if ltb (max_power_mw requested.capability) (max_power_mw cfg.provider_unlimited)
    then requested
    else record requested { capability = cfg.provider_unlimited }

module _ {P C N K : Type 0} ⦃pd : PsuDriver P⦄ where
  abbrev pub supply_of : Service P C N K → ℕ → Option ProviderPowerCapability
  supply_of s a = connected_provider_capability (psu_state s a)

  -- What each PSU is to supply: the requester what it asks for, the others what they supply now.
  abbrev pub requested_supply :
      Service P C N K → ℕ → ProviderPowerCapability → ℕ → Option ProviderPowerCapability
  requested_supply s requester c a = if a == requester then some c else supply_of s a

  -- mod.rs
  unfoldable pub compute_total_provider_power_mw : Service P C N K → ℕ
  compute_total_provider_power_mw s = total_power_from (supply_of s) 0 s.psus

module _ {P C N K : Type 0} ⦃pd : PsuDriver P⦄ ⦃nd : Notifier N⦄ ⦃k : IndexSet K⦄ where
  -- A full set is logged, and the notification goes out all the same.
  unfoldable pub post_provider_connected :
      ℕ → ProviderPowerCapability → Service P C N K → Service P C N K
  post_provider_connected requester target s =
      notify_provider_connected requester target
        (set_providers (k.insert requester s.state.connected_providers).1 s)

  unfoldable pub request_provider :
      ℕ → ProviderPowerCapability → Exec (Service P C N K) Error (Unit {0})
  request_provider requester requested s =
      let total = total_power_from (requested_supply s requester requested) 0 s.psus in
      let power = power_state_for s.config total in
      let target = target_power s.config power requested in
      (do
        modify (set_power power)
        (λ s. (can_connect_provider (psu_state s requester), s))
        call_connect_provider requester target
        modify (post_provider_connected requester target))
        s

  unfoldable pub connect_provider : ℕ → Exec (Service P C N K) Error (Unit {0})
  connect_provider requester s = elim (psu_state s requester).requested_provider_capability [
    | none ↦ (ok tt, s)
    | some requested ↦ request_provider requester requested s
  ]

  -- Whether the device was operating as a provider, and the state after.
  unfoldable pub post_provider_removed : ℕ → Service P C N K → Bool × Service P C N K
  post_provider_removed a s =
      let r = k.remove a s.state.connected_providers in
      let s' = set_providers r.1 s in
      if r.0
      then (
        true,
        notify_provider_disconnected a
            (set_power (power_state_for s.config (total_power_from (supply_of s') 0 s.psus)) s'),
      )
      else (false, s')
