-- ===== src/PowerPolicy/Service/Provider/Outcome.antt =====
-- The results of a provider request and of a provider's removal, and the books of providers.
use embedded_services.Base.{
  ℕ, ◌≡◌, refl, ◌⊎◌, inl, inr, Bool, true, false, not, ◌&&◌, ◌∷◌, none, some, Result, ok, err,
  arith, ◌==◌, if◌then◌else◌,
}
use embedded_services.PowerPolicy.Capability.{ProviderPowerCapability}
use embedded_services.PowerPolicy.Psu.{Error, can_connect_provider}
use embedded_services.PowerPolicy.Event.{Event}
use embedded_services.PowerPolicy.Device.{PsuDriver, Notifier, IndexSet, IndexSetLaws}
use embedded_services.PowerPolicy.Service.{
  Service, psu_connect_provider, broadcast, psu_state, set_power, call_connect_provider,
  notify_provider_connected, notify_provider_disconnected,
}
use embedded_services.PowerPolicy.Service.Provider.{
  request_provider, connect_provider, post_provider_connected, post_provider_removed,
  power_state_for, compute_total_provider_power_mw,
}
use embedded_services.PowerPolicy.Service.Provider.Budget.{request_power, request_target, answer}

module _ {P C N K : Type 0} ⦃pd : PsuDriver P⦄ ⦃nd : Notifier N⦄ ⦃k : IndexSet K⦄ where
  -- The PSU's state does not allow the request: nothing is called.
  abbrev pub Refused : ℕ → ProviderPowerCapability → Service P C N K → Type 0
  Refused a c s =
      (e : Error) × (can_connect_provider (psu_state s a) ≡ err e)
      × (connect_provider a s ≡ (err e, set_power (request_power a c s) s))

  -- The driver fails: its call is the only one, and the device is not in the books of providers.
  abbrev pub Failed : ℕ → ProviderPowerCapability → Service P C N K → Type 0
  Failed a c s =
      (e : Error) × (can_connect_provider (psu_state s a) ≡ ok tt)
      × ((answer a c s).0 ≡ err e)
      × ((connect_provider a s).0 ≡ err e)
      × ((connect_provider a s).1.effects
          ≡ psu_connect_provider a (request_target a c s) ∷ s.effects)
      × ((connect_provider a s).1.state.connected_providers ≡ s.state.connected_providers)

  -- The driver accepts: the device is put in the books, and its grant announced.
  abbrev pub Granted : ℕ → ProviderPowerCapability → Service P C N K → Type 0
  Granted a c s =
      (can_connect_provider (psu_state s a) ≡ ok tt)
      × ((answer a c s).0 ≡ ok tt)
      × ((connect_provider a s).0 ≡ ok tt)
      × ((connect_provider a s).1.effects
          ≡ broadcast (Event.provider_connected a (request_target a c s))
            ∷ psu_connect_provider a (request_target a c s)
            ∷ s.effects)
      × ((connect_provider a s).1.state.connected_providers
          ≡ (k.insert a s.state.connected_providers).1)

  -- A device that asks for nothing is left alone. A request ends in one of three ways: refused by
  -- the device's state, failed by its driver, or granted; in each the power state is computed
  -- first, and the capability granted is the one that the power state gives.
  pub connect_provider_outcome :
      (a : ℕ) (s : Service P C N K)
      → ((psu_state s a).requested_provider_capability ≡ none → connect_provider a s ≡ (ok tt, s))
        × ((c : ProviderPowerCapability)
            → (psu_state s a).requested_provider_capability ≡ some c
            → (Refused a c s ⊎ (Failed a c s ⊎ Granted a c s))
              × ((connect_provider a s).1.state.current_provider_state ≡ request_power a c s))
  unfolding connect_provider request_provider call_connect_provider post_provider_connected
      notify_provider_connected
  connect_provider_outcome a s = (λ e. rw (e, connect_provider) refl, asked)
    where
      asked :
          (c : ProviderPowerCapability)
          → (psu_state s a).requested_provider_capability ≡ some c
          → (Refused a c s ⊎ (Failed a c s ⊎ Granted a c s))
            × ((connect_provider a s).1.state.current_provider_state ≡ request_power a c s)
      asked c e = go (can_connect_provider (psu_state s a)) refl (answer a c s).0 refl
        where
          go :
              (r : Result (Unit {0}) Error)
              → can_connect_provider (psu_state s a) ≡ r
              → (q : Result (Unit {0}) Error) → (answer a c s).0 ≡ q
              → (Refused a c s ⊎ (Failed a c s ⊎ Granted a c s))
                × ((connect_provider a s).1.state.current_provider_state ≡ request_power a c s)
          go (err x) p q f = (inl (x, p, ground (arith, e, p)), ground (arith, e, p))
          go (ok u) p (err x) f = (
            inr (
                inl (
                  x,
                  p,
                  f,
                  ground (arith, e, p, f),
                  ground (arith, e, p, f),
                  ground (arith, e, p, f),
                )),
            ground (arith, e, p, f),
          )
          go (ok u) p (ok v) f = (
            inr (
                inr (
                  p,
                  f,
                  ground (arith, e, p, f),
                  ground (arith, e, p, f),
                  ground (arith, e, p, f),
                )),
            ground (arith, e, p, f),
          )

  module _ (laws : IndexSetLaws K k) where
    -- Taking a device off the books tells whether it was in them, takes out that device alone, and
    -- announces the disconnection and computes the power state anew exactly if it was; a device
    -- that was not in the books changes nothing else.
    pub post_provider_removed_lem :
        (a : ℕ) (s : Service P C N K)
        → let r = post_provider_removed a s in
          (r.0 ≡ k.contains a s.state.connected_providers)
          × ((b : ℕ)
              → k.contains b r.1.state.connected_providers
                ≡ not (a == b) && k.contains b s.state.connected_providers)
          × (r.1.effects
              ≡ (if r.0 then broadcast (Event.provider_disconnected a) ∷ s.effects else s.effects))
          × (r.1.state.current_provider_state ≡ (
              if r.0
              then power_state_for s.config (compute_total_provider_power_mw s)
              else s.state.current_provider_state))
    unfolding post_provider_removed notify_provider_disconnected compute_total_provider_power_mw
    post_provider_removed_lem a s =
        let gone = laws.remove-contains a s.state.connected_providers in
        (
          ground (arith, gone),
          λ b. ground (arith, laws.contains-remove a b s.state.connected_providers),
          ground arith,
          ground arith,
        )

    -- A granted request whose device found room in the books is undone by one removal: the first
    -- removal finds the device and the second does not.
    pub removed_once :
        (a : ℕ) (c : ProviderPowerCapability) (s : Service P C N K) (fresh : Bool)
        → (k.insert a s.state.connected_providers).0 ≡ ok fresh
        → let t = post_provider_connected a c s in
          ((post_provider_removed a t).0 ≡ true)
          × ((post_provider_removed a (post_provider_removed a t).1).0 ≡ false)
    unfolding post_provider_removed post_provider_connected notify_provider_disconnected
        notify_provider_connected
    removed_once a c s fresh room =
        let k1 = (k.insert a s.state.connected_providers).1 in
        let k2 = (k.remove a k1).1 in
        (
          ground (
            arith,
            laws.contains-insert a a s.state.connected_providers fresh room,
            laws.remove-contains a k1,
          ),
          ground (
            arith,
            laws.contains-insert a a s.state.connected_providers fresh room,
            laws.remove-contains a k1,
            laws.contains-remove a a k1,
            laws.remove-contains a k2,
          ),
        )
