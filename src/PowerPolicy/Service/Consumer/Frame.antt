-- ===== src/PowerPolicy/Service/Consumer/Frame.antt =====
-- What the calls to chargers leave alone.
use embedded_services.Base.{ℕ, ◌≡◌, refl, inl, inr, List, [], ◌∷◌, ◌++◌, All, Bool-cases}
use embedded_services.Base.Exec.{for_each, for_each-keeps, bind-keeps, ◌>>◌}
use embedded_services.PowerPolicy.Capability.{ConsumerPowerCapability}
use embedded_services.PowerPolicy.Charger.{is_unpowered}
use embedded_services.PowerPolicy.Device.{PsuDriver, ChargerDriver, Notifier}
use embedded_services.PowerPolicy.Service.{
  Service, Effect, charger_is_ready, charger_init, charger_detach, charger_attach, charger_state,
  call_is_ready, call_init_charger, call_attach_handler, call_detach_handler,
}
use embedded_services.PowerPolicy.Service.Consumer.{
  attach_charger, detach_charger, disconnect_chargers,
}

-- A call on a charger.
abbrev pub OnCharger : Effect → Type 0
OnCharger (charger_is_ready a) = Unit
OnCharger (charger_init a) = Unit
OnCharger (charger_detach a) = Unit
OnCharger (charger_attach a c) = Unit
OnCharger _ = ⊥

-- `t` is `s` but for calls on chargers.
pub record ChargersOnly {P C N K : Type 0} (s t : Service P C N K) : Type 0 where
  pub psus : t.psus ≡ s.psus
  pub chargers : t.chargers ≡ s.chargers
  pub notifiers : t.notifiers ≡ s.notifiers
  pub state : t.state ≡ s.state
  pub config : t.config ≡ s.config
  pub psu_at : t.psu_at ≡ s.psu_at
  pub effects : (xs : List Effect) × (t.effects ≡ xs ++ s.effects) × All OnCharger xs

module _ {P C N K : Type 0} where
  pub ChargersOnly-refl : (s : Service P C N K) → ChargersOnly s s
  ChargersOnly-refl s = record {
    psus = refl;
    chargers = refl;
    notifiers = refl;
    state = refl;
    config = refl;
    psu_at = refl;
    effects = ([], refl, tt);
  }

  touched :
      (s t : Service P C N K) (at : ℕ → C) (e : Effect)
      → OnCharger e
      → ChargersOnly s t
      → ChargersOnly s (record t { charger_at = at; effects = e ∷ t.effects })
  touched s t at e o k = record {
    psus = k.psus;
    chargers = k.chargers;
    notifiers = k.notifiers;
    state = k.state;
    config = k.config;
    psu_at = k.psu_at;
    effects = (e ∷ k.effects.0, rw k.effects.1 refl, (o, k.effects.2));
  }

module _ {P C N K : Type 0} ⦃pd : PsuDriver P⦄ ⦃cd : ChargerDriver C⦄ ⦃nd : Notifier N⦄
    (s : Service P C N K) where
  attach_charger-keeps :
      (c : ConsumerPowerCapability) (a : ℕ) (t : Service P C N K)
      → ChargersOnly s t
      → ChargersOnly s (attach_charger c a t).1
  unfolding attach_charger call_is_ready call_init_charger call_attach_handler
  attach_charger-keeps c a t k = elim (Bool-cases (is_unpowered (charger_state t a))) [
    | inl off ↦ rw off (
        bind-keeps (ChargersOnly s) (call_is_ready a)
          (λ _. call_init_charger a >> call_attach_handler a c) t (λ e _. ready)
          (λ _ _.
            bind-keeps (ChargersOnly s) (call_init_charger a) (λ _. call_attach_handler a c)
              (call_is_ready a t).1 (λ e _. inited)
              (λ _ _. touched s _ _ (charger_attach a c) tt inited)))
    | inr on ↦ rw on (touched s t _ (charger_attach a c) tt k)
  ]
    where
      ready : ChargersOnly s (call_is_ready a t).1
      ready = touched s t _ (charger_is_ready a) tt k

      inited : ChargersOnly s (call_init_charger a (call_is_ready a t).1).1
      inited = touched s (call_is_ready a t).1 _ (charger_init a) tt ready

  detach_charger-keeps :
      (a : ℕ) (t : Service P C N K) → ChargersOnly s t → ChargersOnly s (detach_charger a t).1
  unfolding detach_charger call_detach_handler
  detach_charger-keeps a t k = elim (Bool-cases (is_unpowered (charger_state t a))) [
    | inl off ↦ rw off k
    | inr on ↦ rw on (touched s t _ (charger_detach a) tt k)
  ]

module _ {P C N K : Type 0} ⦃pd : PsuDriver P⦄ ⦃cd : ChargerDriver C⦄ ⦃nd : Notifier N⦄ where
  -- Attaching a list of chargers touches chargers alone, also where it stops at an error.
  pub attach_chargers-ChargersOnly :
      (c : ConsumerPowerCapability) (nodes : List ℕ) (s : Service P C N K)
      → ChargersOnly s (for_each nodes (attach_charger c) s).1
  attach_chargers-ChargersOnly c nodes s =
      for_each-keeps (ChargersOnly s) nodes (attach_charger c) (attach_charger-keeps s c) s
        (ChargersOnly-refl s)

  pub disconnect_chargers-ChargersOnly :
      (s : Service P C N K) → ChargersOnly s (disconnect_chargers s).1
  unfolding disconnect_chargers
  disconnect_chargers-ChargersOnly s =
      for_each-keeps (ChargersOnly s) s.chargers detach_charger (detach_charger-keeps s) s
        (ChargersOnly-refl s)
