-- ===== src/PowerPolicy/Charger/Chart.antt =====
-- The state chart that docs/power-policy.md draws, and the methods against it.
use embedded_services.Base.{◌≡◌, refl, ◌⊎◌, inl, inr, Bool, true, false, Option, ok, err, arith}
use embedded_services.PowerPolicy.Capability.{ConsumerPowerCapability}
use embedded_services.PowerPolicy.Charger.{
  PoweredSubstate, init, psu_attached, psu_detached, InternalState, unpowered, powered,
  invalid_state, SupplyState, attached, detached, State, Outcome, on_initialized,
  on_psu_state_change, on_timeout, on_ready_success, on_ready_failure, on_policy_attach,
  on_policy_detach,
}

-- What a driver may report to the state machine.
pub data Input : Type 0 where
  initialized state_change : SupplyState → Input
  timed_out ready_success ready_failure policy_detach : Input
  policy_attach : ConsumerPowerCapability → Input

-- An arrow of the chart, under the input that it is labelled with.
pub data Arrow : Input → InternalState → InternalState → Type 0 where
  power_up : Arrow ready_success unpowered (powered init)
  find_supply : Arrow (initialized attached) (powered init) (powered psu_attached)
  find_none : Arrow (initialized detached) (powered init) (powered psu_detached)
  plug : Arrow (state_change attached) (powered psu_detached) (powered psu_attached)
  unplug : Arrow (state_change detached) (powered psu_attached) (powered psu_detached)
  lose : (p : PoweredSubstate) → Arrow timed_out (powered p) unpowered
  fail : (p : PoweredSubstate) → Arrow ready_failure (powered p) unpowered

-- The states from which the chart refuses an input.
abbrev pub refuses : Input → InternalState → Bool
refuses (initialized p) (powered init) = false
refuses (initialized p) _ = true
refuses (state_change p) unpowered = true
refuses (state_change p) (powered init) = true
refuses _ _ = false

unfoldable pub react : Input → State → Outcome
react (initialized p) s = on_initialized p s
react (state_change p) s = on_psu_state_change p s
react timed_out s = (ok tt, on_timeout s)
react ready_success s = (ok tt, on_ready_success s)
react ready_failure s = (ok tt, on_ready_failure s)
react policy_detach s = (ok tt, on_policy_detach s)
react (policy_attach c) s = (ok tt, on_policy_attach c s)

react_at :
    (i : Input) (q : InternalState) (c : Option ConsumerPowerCapability)
    → let r = react i (record { state = q; capability = c }) in
      (r.1.state ≡ q) ⊎ Arrow i q r.1.state
unfolding react on_initialized on_psu_state_change on_timeout on_ready_success on_ready_failure
    on_policy_attach on_policy_detach
react_at (initialized attached) (powered init) c = inr find_supply
react_at (initialized detached) (powered init) c = inr find_none
react_at (initialized p) unpowered c = inl refl
react_at (initialized p) (powered psu_attached) c = inl refl
react_at (initialized p) (powered psu_detached) c = inl refl
react_at (state_change attached) (powered psu_detached) c = inr plug
react_at (state_change detached) (powered psu_attached) c = inr unplug
react_at (state_change attached) (powered psu_attached) c = inl refl
react_at (state_change detached) (powered psu_detached) c = inl refl
react_at (state_change attached) unpowered c = inl refl
react_at (state_change detached) unpowered c = inl refl
react_at (state_change attached) (powered init) c = inl refl
react_at (state_change detached) (powered init) c = inl refl
react_at timed_out unpowered c = inl refl
react_at timed_out (powered p) c = inr (lose p)
react_at ready_success unpowered c = inr power_up
react_at ready_success (powered p) c = inl refl
react_at ready_failure unpowered c = inl refl
react_at ready_failure (powered p) c = inr (fail p)
react_at policy_detach q c = inl refl
react_at (policy_attach d) q c = inl refl

-- Every method call either leaves the charger's internal state as it was or follows an arrow of the
-- chart that is labelled with the call.
pub react-follows_chart :
    (i : Input) (s : State) → ((react i s).1.state ≡ s.state) ⊎ Arrow i s.state (react i s).1.state
react-follows_chart i s = react_at i s.state s.capability

-- A call fails exactly from the states that refuse it, with the state in the error, and then
-- changes nothing; every arrow of the chart is taken by the call that it is labelled with.
pub react-refuses :
    (i : Input) (s : State)
    → ((refuses i s.state ≡ true) → react i s ≡ (err (invalid_state s.state), s))
      × ((refuses i s.state ≡ false) → (react i s).0 ≡ ok tt)
      × ((q : InternalState) → Arrow i s.state q → (react i s).1.state ≡ q)
unfolding react on_initialized on_psu_state_change on_timeout on_ready_success on_ready_failure
    on_policy_attach on_policy_detach
react-refuses i s = (refused i s, accepted i s, λ q a. taken i s s.state q refl a)
  where
    refused :
        (i : Input) (s : State)
        → refuses i s.state ≡ true
        → react i s ≡ (err (invalid_state s.state), s)
    refused (initialized attached) s h = ground arith
    refused (initialized detached) s h = ground arith
    refused (state_change attached) s h = ground arith
    refused (state_change detached) s h = ground arith
    refused _ s h = ground arith

    accepted : (i : Input) (s : State) → refuses i s.state ≡ false → (react i s).0 ≡ ok tt
    accepted (initialized p) s h = ground arith
    accepted (state_change attached) s h = ground arith
    accepted (state_change detached) s h = ground arith
    accepted _ s h = refl

    taken :
        (i : Input) (s : State) (p q : InternalState)
        → s.state ≡ p
        → Arrow i p q
        → (react i s).1.state ≡ q
    taken i s p q e power_up = ground arith
    taken i s p q e find_supply = ground arith
    taken i s p q e find_none = ground arith
    taken i s p q e plug = ground arith
    taken i s p q e unplug = ground arith
    taken i s p q e (lose r) = ground arith
    taken i s p q e (fail r) = ground arith
