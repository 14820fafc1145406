-- ===== src/PowerPolicy/Service/Handlers/Exclusive.antt =====
-- At most one PSU consumes, whatever event comes.
use embedded_services.Base.{
  ℕ, ◌≡◌, refl, sym, ap, inl, inr, true, List, [], ◌∷◌, Option, none, some, Result, ok, err, arith,
  ◌==◌, Bool-cases, All, subst, is_eq, not,
}
use embedded_services.Base.Exec.{bind-keeps, ◌>>◌, modify}
use embedded_services.PowerPolicy.Capability.{
  ConsumerPowerCapability, ProviderPowerCapability, DisconnectFlags,
}
use embedded_services.PowerPolicy.Psu.{Error, is_connected_consumer, can_connect_provider}
use embedded_services.PowerPolicy.Device.{PsuDriver, ChargerDriver, Notifier, IndexSet}
use embedded_services.PowerPolicy.Device.Laws.{PsuLaws}
use embedded_services.PowerPolicy.Service.{
  Service, AvailableConsumer, psu_state, set_consumer, set_power, notify_unconstrained,
  notify_consumer_disconnected, call_connect_provider, notify_provider_connected,
  notify_provider_disconnected,
}
use embedded_services.PowerPolicy.Service.Consumer.{
  update_unconstrained_state, UnconstrainedState-discrete, new_unconstrained, disconnect_chargers,
  release_consumer, follow_best, update_current_consumer,
}
use embedded_services.PowerPolicy.Service.Consumer.Selection.{Registered}
use embedded_services.PowerPolicy.Service.Consumer.Best.{
  Offers, NoOffer, Chosen, find_best_consumer_default_lem,
}
use embedded_services.PowerPolicy.Service.Consumer.Frame.{disconnect_chargers-ChargersOnly}
use embedded_services.PowerPolicy.Service.Consumer.Exclusive.{
  consumes, IsExclusive, IsVacant, CanLeave, vacant-IsExclusive, same-IsVacant, same-IsExclusive,
  connect_new_consumer-IsExclusive,
}
use embedded_services.PowerPolicy.Service.Provider.{
  request_provider, connect_provider, post_provider_connected, post_provider_removed, target_power,
  power_state_for, total_power_from, requested_supply,
}
use embedded_services.PowerPolicy.Service.Handlers.{
  EventData, attached, detached, updated_consumer_capability, requested_provider_capability,
  disconnected, remove_and_update, process_psu_event,
}

All-at {ℓ} : (Q : ℕ → Type ℓ) (a : ℕ) (nodes : List ℕ) → Registered a nodes → All Q nodes → Q a
All-at Q a (b ∷ bs) (inl e) h = subst Q (sym e) h.0
All-at Q a (b ∷ bs) (inr r) h = All-at Q a bs r h.1
All-at Q a [] r h = absurd r

module _ {P C N K : Type 0} ⦃pd : PsuDriver P⦄ where
  -- Every PSU that consumes is registered and offers what the service may choose.
  abbrev pub IsBacked : Service P C N K → Type 0
  IsBacked s =
      (a : ℕ)
      → consumes s a ≡ true
      → Registered a s.psus × ((c : ConsumerPowerCapability) × Offers s a c)

  same-IsBacked :
      (s t : Service P C N K)
      → t.psu_at ≡ s.psu_at
      → t.psus ≡ s.psus
      → t.config ≡ s.config
      → IsBacked s
      → IsBacked t
  same-IsBacked s t e f g b i h =
      let same = ap (λ (m : ℕ → P). m i) e in
      let r = b i (ground (arith, same)) in
      let offer = r.1 in
      (rw f r.0, (offer.0, (ground (arith, same, offer.1.0), ground (arith, g, offer.1.1))))

  no_offer-IsVacant : (s : Service P C N K) → NoOffer s → IsBacked s → IsVacant s
  no_offer-IsVacant s n b = record {
    idle = λ a. elim (Bool-cases (consumes s a)) [
      | inl busy ↦
          let r = b a busy in
          let offer = r.1 in
          absurd (
            All-at (λ i. (c : ConsumerPowerCapability) → ¬ Offers s i c) a s.psus r.0 n offer.0
              offer.1)
      | inr free ↦ free
    ];
  }

module _ {P C N K : Type 0} ⦃pd : PsuDriver P⦄ ⦃cd : ChargerDriver C⦄ ⦃nd : Notifier N⦄ where
  release_consumer-psu_at :
      (o : Option AvailableConsumer) (f : DisconnectFlags) (s : Service P C N K)
      → (release_consumer o f s).1.psu_at ≡ s.psu_at
  unfolding release_consumer notify_consumer_disconnected
  release_consumer-psu_at none f s = refl
  release_consumer-psu_at (some c) f s =
      let k = disconnect_chargers-ChargersOnly s in
      bind-keeps (λ t. t.psu_at ≡ s.psu_at) disconnect_chargers
        (λ _. modify (notify_consumer_disconnected c.psu f) >> modify (set_consumer none)) s
        (λ _ _. k.psu_at) (λ _ _. k.psu_at)

  update_unconstrained_state-IsExclusive :
      (s : Service P C N K) → IsExclusive s → IsExclusive (update_unconstrained_state s).1
  unfolding update_unconstrained_state notify_unconstrained
  update_unconstrained_state-IsExclusive s x =
      elim (Bool-cases
        (not (is_eq UnconstrainedState-discrete (new_unconstrained s) s.state.unconstrained))) [
          | inl new ↦ rw new (same-IsExclusive s _ refl refl x)
          | inr old ↦ rw old x
        ]

module _ {P C N K : Type 0} ⦃pd : PsuDriver P⦄ ⦃cd : ChargerDriver C⦄ ⦃nd : Notifier N⦄
    (laws : PsuLaws P pd) where
  follow_best-IsExclusive :
      (o : Option AvailableConsumer) (f : DisconnectFlags) (s : Service P C N K)
      → Chosen s o
      → IsExclusive s
      → CanLeave s
      → IsBacked s
      → IsExclusive (follow_best o f s).1
  unfolding follow_best
  follow_best-IsExclusive none f s n x leaves b = vacant-IsExclusive _ (
      same-IsVacant s (release_consumer s.state.current_consumer_state f s).1
        (release_consumer-psu_at s.state.current_consumer_state f s) (no_offer-IsVacant s n b))
  follow_best-IsExclusive (some best) f s n x leaves b =
      connect_new_consumer-IsExclusive laws s best f x leaves

  pub update_current_consumer-IsExclusive :
      (f : DisconnectFlags) (s : Service P C N K)
      → IsExclusive s
      → CanLeave s
      → IsBacked s
      → IsExclusive (update_current_consumer f s).1
  unfolding update_current_consumer
  update_current_consumer-IsExclusive f s x leaves b =
      let best = find_best_consumer_default_lem s in
      rw best.1 (
        bind-keeps IsExclusive (follow_best best.0 f) (λ _. update_unconstrained_state) s
          (λ _ _. follow_best-IsExclusive best.0 f s best.2 x leaves b)
          (λ _ _.
            update_unconstrained_state-IsExclusive (follow_best best.0 f s).1
              (follow_best-IsExclusive best.0 f s best.2 x leaves b)))

module _ {P C N K : Type 0} ⦃pd : PsuDriver P⦄ ⦃cd : ChargerDriver C⦄ ⦃nd : Notifier N⦄
    ⦃k : IndexSet K⦄ (laws : PsuLaws P pd) where
  -- A provider connects: whatever the driver answers, it does not start to consume.
  provide-IsExclusive :
      (a : ℕ) (c : ProviderPowerCapability) (s : Service P C N K)
      → IsExclusive s
      → IsExclusive (call_connect_provider a c s).1
  unfolding call_connect_provider is_connected_consumer
  provide-IsExclusive a c s x = record { only = λ b h. x.only b (before b h) }
    where
      at_requester :
          (r : Result (Unit {0}) Error)
          → (pd.connect_provider c (s.psu_at a)).0 ≡ r
          → is_connected_consumer (pd.state (pd.connect_provider c (s.psu_at a)).1) ≡ true
          → consumes s a ≡ true
      at_requester (ok u) e h = ground (arith, laws.connected_provider c (s.psu_at a) e)
      at_requester (err q) e h = ground (arith, laws.refused_provider c (s.psu_at a) q e)

      before : (b : ℕ) → consumes (call_connect_provider a c s).1 b ≡ true → consumes s b ≡ true
      before b h = elim (Bool-cases (a == b)) [
        | inl same ↦ ground (arith, at_requester (pd.connect_provider c (s.psu_at a)).0 refl)
        | inr other ↦ ground arith
      ]

  request_provider-IsExclusive :
      (a : ℕ) (c : ProviderPowerCapability) (s : Service P C N K)
      → IsExclusive s
      → IsExclusive (request_provider a c s).1
  unfolding request_provider post_provider_connected notify_provider_connected
  request_provider-IsExclusive a c s x =
      let power = power_state_for s.config (total_power_from (requested_supply s a c) 0 s.psus) in
      let target = target_power s.config power c in
      let s1 = set_power power s in
      let x1 = same-IsExclusive s s1 refl refl x in
      let x2 = provide-IsExclusive a target s1 x1 in
      let s2 = (call_connect_provider a target s1).1 in
      bind-keeps IsExclusive (λ s. (can_connect_provider (psu_state s a), s))
        (λ _. call_connect_provider a target >> modify (post_provider_connected a target)) s1
        (λ _ _. x1)
        (λ _ _.
          bind-keeps IsExclusive (call_connect_provider a target)
            (λ _. modify (post_provider_connected a target)) s1 (λ _ _. x2)
            (λ _ _. same-IsExclusive s2 (post_provider_connected a target s2) refl refl x2))

  connect_provider-IsExclusive :
      (a : ℕ) (s : Service P C N K) → IsExclusive s → IsExclusive (connect_provider a s).1
  unfolding connect_provider
  connect_provider-IsExclusive a s x = go (psu_state s a).requested_provider_capability refl
    where
      go :
          (o : Option ProviderPowerCapability)
          → (psu_state s a).requested_provider_capability ≡ o
          → IsExclusive (connect_provider a s).1
      go none e = rw (e, connect_provider) x
      go (some c) e = rw (e, connect_provider) (request_provider-IsExclusive a c s x)

  -- Taking a provider off the books changes neither the PSUs nor the current consumer.
  post_provider_removed-frame :
      (a : ℕ) (s : Service P C N K)
      → let t = (post_provider_removed a s).1 in
        (t.psu_at ≡ s.psu_at)
        × (t.state.current_consumer_state ≡ s.state.current_consumer_state)
        × (t.psus ≡ s.psus)
        × (t.config ≡ s.config)
  unfolding post_provider_removed notify_provider_disconnected
  post_provider_removed-frame a s = elim (Bool-cases (k.remove a s.state.connected_providers).0) [
    | inl was ↦ rw was (refl, refl, refl, refl)
    | inr never ↦ rw never (refl, refl, refl, refl)
  ]

  remove_and_update-IsExclusive :
      (a : ℕ) (f : DisconnectFlags) (s : Service P C N K)
      → IsExclusive s
      → CanLeave s
      → IsBacked s
      → IsExclusive (remove_and_update a f s).1
  unfolding remove_and_update
  remove_and_update-IsExclusive a f s x leaves b =
      let t = (post_provider_removed a s).1 in
      let fr = post_provider_removed-frame a s in
      update_current_consumer-IsExclusive laws f t (same-IsExclusive s t fr.0 fr.1 x)
        (λ i e. rw fr.0 (leaves i (ground (arith, fr.1)))) (same-IsBacked s t fr.0 fr.2 fr.3 b)

  -- If at most the current consumer consumes, its driver can disconnect it, and every PSU that
  -- consumes is registered with an offer that the service may choose, then after any PSU event,
  -- whatever errors the chargers and the other drivers return, still at most the consumer in the
  -- books consumes.
  pub process_psu_event-IsExclusive :
      (a : ℕ) (e : EventData) (s : Service P C N K)
      → IsExclusive s
      → CanLeave s
      → IsBacked s
      → IsExclusive (process_psu_event a e s).1
  unfolding process_psu_event
  process_psu_event-IsExclusive a attached s x leaves b = x
  process_psu_event-IsExclusive a detached s x leaves b =
      remove_and_update-IsExclusive a _ s x leaves b
  process_psu_event-IsExclusive a (updated_consumer_capability c) s x leaves b =
      update_current_consumer-IsExclusive laws _ s x leaves b
  process_psu_event-IsExclusive a (requested_provider_capability c) s x leaves b =
      connect_provider-IsExclusive a s x
  process_psu_event-IsExclusive a (disconnected f) s x leaves b =
      remove_and_update-IsExclusive a f s x leaves b
