-- ===== src/PowerPolicy/Service/Provider/Budget.antt =====
-- What a provider request is granted, and that the unlimited state keeps to the threshold.
use embedded_services.Base.{
  ℕ, ◌^◌, ◌≤◌, ◌<◌, ◌≡◌, refl, inl, inr, some, Result, ok, err, arith, ◌==◌, if◌then◌else◌,
  Bool-cases, sym, ◌∙◌,
}
use embedded_services.PowerPolicy.Capability.{ProviderPowerCapability, max_power_mw}
use embedded_services.PowerPolicy.Psu.{Error, can_connect_provider, connected_provider_capability}
use embedded_services.PowerPolicy.Device.{PsuDriver, Notifier, IndexSet}
use embedded_services.PowerPolicy.Device.Laws.{PsuLaws}
use embedded_services.PowerPolicy.Service.{
  Config, PowerState, unlimited, Service, psu_state, call_connect_provider,
  notify_provider_connected,
}
use embedded_services.PowerPolicy.Service.Provider.{
  power_of, total_power_from, power_state_for, target_power, supply_of, requested_supply,
  compute_total_provider_power_mw, post_provider_connected, request_provider, connect_provider,
}
use embedded_services.PowerPolicy.Service.Provider.Totals.{
  sum_power, sum_power_mono, total_power_from-mod,
}

-- In the unlimited state no request is granted more power than it asks for.
pub target_power-le :
    (cfg : Config) (c : ProviderPowerCapability)
    → max_power_mw (target_power cfg unlimited c).capability ≤ max_power_mw c.capability
unfolding target_power
target_power-le cfg c = ground arith

power_state_for-unlimited :
    (cfg : Config) (total : ℕ)
    → power_state_for cfg total ≡ unlimited
    → total ≤ cfg.limited_power_threshold_mw
unfolding power_state_for
power_state_for-unlimited cfg total h = ground arith

module _ {P C N K : Type 0} ⦃pd : PsuDriver P⦄ ⦃nd : Notifier N⦄ ⦃k : IndexSet K⦄ (requester : ℕ)
    (c : ProviderPowerCapability) (s : Service P C N K) where
  abbrev pub request_power : PowerState
  request_power =
      power_state_for s.config (total_power_from (requested_supply s requester c) 0 s.psus)

  abbrev pub request_target : ProviderPowerCapability
  request_target = target_power s.config request_power c

  -- The driver's answer to the request.
  abbrev pub answer : Result (Unit {0}) Error × P
  answer = pd.connect_provider request_target (s.psu_at requester)

  -- A request that succeeds was allowed by the PSU's state and accepted by its driver.
  pub request_provider-ok :
      (request_provider requester c s).0 ≡ ok tt
      → (can_connect_provider (psu_state s requester) ≡ ok tt) × (answer.0 ≡ ok tt)
  unfolding request_provider call_connect_provider
  request_provider-ok h = go (can_connect_provider (psu_state s requester)) refl answer.0 refl h
    where
      go :
          (r : Result (Unit {0}) Error)
          → can_connect_provider (psu_state s requester) ≡ r
          → (q : Result (Unit {0}) Error) → answer.0 ≡ q
          → (request_provider requester c s).0 ≡ ok tt
          → (can_connect_provider (psu_state s requester) ≡ ok tt) × (answer.0 ≡ ok tt)
      go (ok u) e (ok v) f h = (e, f)
      go (ok u) e (err v) f h = ground arith
      go (err x) e q f h = ground arith

  -- What the request leaves of the store, the registration and the power state.
  request_provider-state :
      (request_provider requester c s).0 ≡ ok tt
      → let s' = (request_provider requester c s).1 in
        (s'.psus ≡ s.psus)
        × (s'.state.current_provider_state ≡ request_power)
        × ((a : ℕ) → s'.psu_at a ≡ (if requester == a then answer.1 else s.psu_at a))
  unfolding request_provider call_connect_provider post_provider_connected notify_provider_connected
  request_provider-state h =
      let o = request_provider-ok h in
      (ground (arith, o.0, o.1), ground (arith, o.0, o.1), λ a. ground (arith, o.0, o.1))

  module _ (laws : PsuLaws P pd) (granted : (request_provider requester c s).0 ≡ ok tt) where
    supply_after :
        (a : ℕ)
        → request_power ≡ unlimited
        → power_of (supply_of (request_provider requester c s).1 a)
          ≤ power_of (requested_supply s requester c a)
    unfolding connected_provider_capability
    supply_after a u =
        let o = request_provider-ok granted in
        let st = request_provider-state granted in
        let now = laws.connected_provider request_target (s.psu_at requester) o.1 in
        elim (Bool-cases (requester == a)) [
          | inl same ↦ ground (arith, st.2 a, now, target_power-le s.config c)
          | inr other ↦ ground (arith, st.2 a)
        ]

    supplied_after :
        connected_provider_capability (psu_state (request_provider requester c s).1 requester)
        ≡ some request_target
    unfolding connected_provider_capability
    supplied_after =
        let o = request_provider-ok granted in
        let st = request_provider-state granted in
        let now = laws.connected_provider request_target (s.psu_at requester) o.1 in
        ground (arith, st.2 requester, now)

    total_after :
        sum_power (requested_supply s requester c) s.psus < 2 ^ 32
        → (request_provider requester c s).1.state.current_provider_state ≡ unlimited
        → compute_total_provider_power_mw (request_provider requester c s).1
          ≤ s.config.limited_power_threshold_mw
    unfolding compute_total_provider_power_mw
    total_after small u =
        let st = request_provider-state granted in
        let u' : request_power ≡ unlimited = sym st.1 ∙ u in
        let after = supply_of (request_provider requester c s).1 in
        rw st.0 (
          omega (
            arith,
            total_power_from-mod after 0 s.psus (omega arith),
            sum_power_mono after (requested_supply s requester c) s.psus (λ a. supply_after a u'),
            total_power_from-mod (requested_supply s requester c) 0 s.psus (omega arith),
            power_state_for-unlimited s.config
                (total_power_from (requested_supply s requester c) 0 s.psus) u',
          ))

module _ {P C N K : Type 0} ⦃pd : PsuDriver P⦄ ⦃nd : Notifier N⦄ ⦃k : IndexSet K⦄ where
  -- If a provider request succeeds and leaves the system unlimited, then the requester is connected with
  -- the granted capability, and the total power that the registered PSUs supply afterwards, the requester
  -- among them if it is registered, is within the configured threshold, provided the requested total fits a
  -- `u32` and the driver keeps its promises.
  pub connect_provider-within_budget :
      (requester : ℕ) (c : ProviderPowerCapability) (s : Service P C N K)
      → PsuLaws P pd
      → (psu_state s requester).requested_provider_capability ≡ some c
      → (connect_provider requester s).0 ≡ ok tt
      → sum_power (requested_supply s requester c) s.psus < 2 ^ 32
      → (connect_provider requester s).1.state.current_provider_state ≡ unlimited
      → (connected_provider_capability (psu_state (connect_provider requester s).1 requester)
          ≡ some (request_target requester c s))
        × (compute_total_provider_power_mw (connect_provider requester s).1
            ≤ s.config.limited_power_threshold_mw)
  unfolding connect_provider
  connect_provider-within_budget requester c s laws asks granted small u =
      let g = rw (asks, connect_provider) at granted in
      let v = rw (asks, connect_provider) at u in
      rw (asks, connect_provider)
        (supplied_after requester c s laws g, total_after requester c s laws g small v)
