-- ===== src/PowerPolicy/Service/Consumer/Unconstrained.antt =====
-- The unconstrained state that the service keeps and announces.
use embedded_services.Base.{
  ℕ, ◌≤◌, ◌≡◌, refl, sym, ◌∙◌, ap, ◌≢◌, inl, inr, true, false, not, List, [], ◌∷◌, Option, none,
  some, Result, ok, err, arith, if◌then◌else◌, Bool-cases, length,
}
use embedded_services.Base.Exec.{Exec, for_each, bind-keeps, bind-ok, ◌>>◌, modify}
use embedded_services.PowerPolicy.Capability.{DisconnectFlags}
use embedded_services.PowerPolicy.Psu.{Error, can_connect_consumer}
use embedded_services.PowerPolicy.Event.{Event, UnconstrainedState}
use embedded_services.PowerPolicy.Device.{PsuDriver, ChargerDriver, Notifier}
use embedded_services.PowerPolicy.Service.{
  Service, AvailableConsumer, broadcast, psu_state, set_consumer, set_unconstrained, wait,
  call_disconnect, call_connect_consumer, notify_unconstrained, notify_consumer_connected,
  notify_consumer_disconnected,
}
use embedded_services.PowerPolicy.Service.Consumer.{
  offers_unconstrained, count_unconstrained, new_unconstrained, UnconstrainedState-discrete,
  update_unconstrained_state, disconnect_if_connected, disconnect_chargers, leave_consumer,
  enter_consumer, post_consumer_connected, attach_charger, switch_consumer, same_consumer,
  disconnect_reason, release_consumer, follow_best, update_current_consumer,
  find_best_consumer_default, cmp_consumer_capability_default,
}
use embedded_services.PowerPolicy.Service.Consumer.Best.{find_best_consumer_default_lem}
use embedded_services.PowerPolicy.Service.Consumer.Frame.{
  ChargersOnly, attach_chargers-ChargersOnly, disconnect_chargers-ChargersOnly,
}

module _ {P C N K : Type 0} ⦃pd : PsuDriver P⦄ where
  pub count_unconstrained-le :
      (s : Service P C N K) (psus : List ℕ) → count_unconstrained s psus ≤ length psus
  unfolding count_unconstrained
  count_unconstrained-le s [] = omega arith
  count_unconstrained-le s (a ∷ psus) = ground (arith, count_unconstrained-le s psus)

  count_unconstrained-same :
      (s t : Service P C N K) (psus : List ℕ)
      → t.psu_at ≡ s.psu_at
      → count_unconstrained t psus ≡ count_unconstrained s psus
  unfolding count_unconstrained offers_unconstrained
  count_unconstrained-same s t [] e = refl
  count_unconstrained-same s t (a ∷ psus) e = rw (e, count_unconstrained-same s t psus e) refl

  -- The unconstrained state is computed from the PSUs and the current consumer alone.
  new_unconstrained-same :
      (s t : Service P C N K)
      → t.psu_at ≡ s.psu_at
      → t.psus ≡ s.psus
      → t.state.current_consumer_state ≡ s.state.current_consumer_state
      → new_unconstrained t ≡ new_unconstrained s
  unfolding new_unconstrained
  new_unconstrained-same s t e f g =
      ground (arith, g, ap (λ l. count_unconstrained t l) f, count_unconstrained-same s t s.psus e)

module _ {P C N K : Type 0} ⦃pd : PsuDriver P⦄ ⦃cd : ChargerDriver C⦄ ⦃nd : Notifier N⦄ where
  -- The state is up to date, and is announced exactly if it changed.
  abbrev pub Settled : Service P C N K → Result (Unit {0}) Error × Service P C N K → Type 0
  Settled s r =
      (r.0 ≡ ok tt)
      × (r.1.state.unconstrained ≡ new_unconstrained r.1)
      × (new_unconstrained s ≡ s.state.unconstrained → r.1 ≡ s)
      × (new_unconstrained s ≢ s.state.unconstrained
          → r.1.effects ≡ broadcast (Event.unconstrained (new_unconstrained s)) ∷ s.effects)

  -- The update always succeeds and brings the unconstrained state up to date: whether the current
  -- consumer is unconstrained, and how many PSUs offer unconstrained power. It is announced exactly
  -- if it changed, and otherwise the service is left as it was.
  pub update_unconstrained_state_lem :
      (s : Service P C N K) → Settled s (update_unconstrained_state s)
  unfolding update_unconstrained_state notify_unconstrained
  update_unconstrained_state_lem s =
      elim (UnconstrainedState-discrete (new_unconstrained s) s.state.unconstrained)
        as (λ d. Settled s (
          if not (elim d [ yes _ ↦ true | no _ ↦ false ])
          then (
            ok tt,
            notify_unconstrained (new_unconstrained s) (set_unconstrained (new_unconstrained s) s),
          )
          else (ok tt, s))) [
            | yes e ↦ (refl, sym e, λ _. refl, λ n. absurd (n e))
            | no n ↦ (
              refl,
              sym (
                  new_unconstrained-same s
                    (notify_unconstrained (new_unconstrained s)
                      (set_unconstrained (new_unconstrained s) s))
                    refl refl refl),
              λ e. absurd (n e),
              λ _. refl,
            )
          ]

module _ {P C N K : Type 0} ⦃pd : PsuDriver P⦄ ⦃cd : ChargerDriver C⦄ ⦃nd : Notifier N⦄
    (w : UnconstrainedState) where
  abbrev Holds : Service P C N K → Type 0
  Holds t = t.state.unconstrained ≡ w

  chargers_keep : (s t : Service P C N K) → ChargersOnly s t → Holds s → Holds t
  chargers_keep s t k h = ap (λ i. i.unconstrained) k.state ∙ h

  post_consumer_connected-Holds :
      (new : AvailableConsumer) (s : Service P C N K)
      → Holds s
      → Holds (post_consumer_connected new s).1
  unfolding post_consumer_connected notify_consumer_connected
  post_consumer_connected-Holds new s h =
      let c = new.consumer_power_capability in
      let s' = wait 800 (set_consumer (some new) s) in
      let k = attach_chargers-ChargersOnly c s.chargers s' in
      bind-keeps Holds (λ s. for_each s.chargers (attach_charger c) s)
        (λ _. modify (notify_consumer_connected new.psu c)) s' (λ _ _. chargers_keep s' _ k h)
        (λ _ _. chargers_keep s' _ k h)

  enter_consumer-Holds :
      (new : AvailableConsumer) (s : Service P C N K) → Holds s → Holds (enter_consumer new s).1
  unfolding enter_consumer call_connect_consumer
  enter_consumer-Holds new s h =
      let c = new.consumer_power_capability in
      bind-keeps Holds (λ s. (can_connect_consumer (psu_state s new.psu), s))
        (λ _. call_connect_consumer new.psu c >> post_consumer_connected new) s (λ _ _. h)
        (λ _ _.
          bind-keeps Holds (call_connect_consumer new.psu c) (λ _. post_consumer_connected new) s
            (λ _ _. h)
            (λ _ _. post_consumer_connected-Holds new (call_connect_consumer new.psu c s).1 h))

  disconnect_if_connected-Holds :
      (a : ℕ) (s : Service P C N K) → Holds s → Holds (disconnect_if_connected a s).1
  unfolding disconnect_if_connected call_disconnect
  disconnect_if_connected-Holds a s h = ground arith

  leave_consumer-Holds :
      (current new : AvailableConsumer) (f : DisconnectFlags) (s : Service P C N K)
      → Holds s
      → Holds (leave_consumer current new f s).1
  unfolding leave_consumer notify_consumer_disconnected
  leave_consumer-Holds current new f s h =
      let s1 = set_consumer none s in
      let s2 = (disconnect_if_connected current.psu s1).1 in
      let k = disconnect_chargers-ChargersOnly s2 in
      let h2 = disconnect_if_connected-Holds current.psu s1 h in
      let last : Exec (Service P C N K) Error (Unit {0}) = modify (
        notify_consumer_disconnected current.psu
          (record { reason = some (disconnect_reason current.psu new.psu f) })) in
      bind-keeps Holds (disconnect_if_connected current.psu) (λ _. disconnect_chargers >> last) s1
        (λ _ _. h2)
        (λ _ _.
          bind-keeps Holds disconnect_chargers (λ _. last) s2 (λ _ _. chargers_keep s2 _ k h2)
            (λ _ _. chargers_keep s2 _ k h2))

  switch_consumer-Holds :
      (o : Option AvailableConsumer) (new : AvailableConsumer) (f : DisconnectFlags)
      (s : Service P C N K)
      → Holds s
      → Holds (switch_consumer o new f s).1
  unfolding switch_consumer
  switch_consumer-Holds none new f s h = enter_consumer-Holds new s h
  switch_consumer-Holds (some c) new f s h = elim (Bool-cases (same_consumer c new)) [
    | inl same ↦ rw same h
    | inr other ↦ rw other (
        bind-keeps Holds (leave_consumer c new f) (λ _. enter_consumer new) s
          (λ _ _. leave_consumer-Holds c new f s h)
          (λ _ _.
            enter_consumer-Holds new (leave_consumer c new f s).1
              (leave_consumer-Holds c new f s h)))
  ]

  release_consumer-Holds :
      (o : Option AvailableConsumer) (f : DisconnectFlags) (s : Service P C N K)
      → Holds s
      → Holds (release_consumer o f s).1
  unfolding release_consumer notify_consumer_disconnected
  release_consumer-Holds none f s h = h
  release_consumer-Holds (some c) f s h =
      let k = disconnect_chargers-ChargersOnly s in
      bind-keeps Holds disconnect_chargers
        (λ _. modify (notify_consumer_disconnected c.psu f) >> modify (set_consumer none)) s
        (λ _ _. chargers_keep s _ k h) (λ _ _. chargers_keep s _ k h)

  follow_best-Holds :
      (o : Option AvailableConsumer) (f : DisconnectFlags) (s : Service P C N K)
      → Holds s
      → Holds (follow_best o f s).1
  unfolding follow_best
  follow_best-Holds none f s h = release_consumer-Holds s.state.current_consumer_state f s h
  follow_best-Holds (some b) f s h = switch_consumer-Holds s.state.current_consumer_state b f s h

module _ {P C N K : Type 0} ⦃pd : PsuDriver P⦄ ⦃cd : ChargerDriver C⦄ ⦃nd : Notifier N⦄ where
  -- After an update of the consumer that succeeds the unconstrained state agrees with the PSUs and
  -- the consumer in the books. After one that fails it is the one of before, whatever became of
  -- the consumer.
  pub update_current_consumer-unconstrained :
      (f : DisconnectFlags) (s : Service P C N K)
      → let r = update_current_consumer f s in
        (r.0 ≡ ok tt → r.1.state.unconstrained ≡ new_unconstrained r.1)
        × ((e : Error) → r.0 ≡ err e → r.1.state.unconstrained ≡ s.state.unconstrained)
  unfolding update_current_consumer
  update_current_consumer-unconstrained f s = rw best.1 (succeeds, fails)
    where
      best :
          (o : Option AvailableConsumer) × (find_best_consumer_default
              cmp_consumer_capability_default s
            ≡ ok o)
      best = let b = find_best_consumer_default_lem s in (b.0, b.1)

      r : Result (Unit {0}) Error × Service P C N K
      r = (follow_best best.0 f >> update_unconstrained_state) s

      succeeds : r.0 ≡ ok tt → r.1.state.unconstrained ≡ new_unconstrained r.1
      succeeds h =
          let b = bind-ok (follow_best best.0 f) (λ _. update_unconstrained_state) s h in
          rw b.2 ((update_unconstrained_state_lem (follow_best best.0 f s).1).1)

      fails : (e : Error) → r.0 ≡ err e → r.1.state.unconstrained ≡ s.state.unconstrained
      fails e = go (follow_best best.0 f s).0 refl
        where
          go :
              (q : Result (Unit {0}) Error)
              → (follow_best best.0 f s).0 ≡ q
              → r.0 ≡ err e
              → r.1.state.unconstrained ≡ s.state.unconstrained
          go (ok u) p h =
              absurd (ground (arith, (update_unconstrained_state_lem (follow_best best.0 f s).1).0))
          go (err x) p h = rw p (follow_best-Holds s.state.unconstrained best.0 f s refl)
