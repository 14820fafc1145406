-- ===== src/PowerPolicy/Service/Consumer/Exclusive.antt =====
-- At most one PSU is told to consume at a time.
use embedded_services.Base.{
  ℕ, ◌≡◌, refl, ap, inl, inr, Bool, true, false, Option, none, some, ok, err, arith, ◌==◌,
  Bool-cases,
}
use embedded_services.Base.Exec.{Exec, for_each, bind-keeps, ◌>>◌, modify}
use embedded_services.PowerPolicy.Capability.{ConsumerPowerCapability, DisconnectFlags}
use embedded_services.PowerPolicy.Psu.{Error, is_connected_consumer, can_connect_consumer}
use embedded_services.PowerPolicy.Device.{PsuDriver, ChargerDriver, Notifier}
use embedded_services.PowerPolicy.Device.Laws.{PsuLaws}
use embedded_services.PowerPolicy.Service.{
  Service, AvailableConsumer, psu_state, set_consumer, wait, call_disconnect, call_connect_consumer,
  notify_consumer_connected, notify_consumer_disconnected,
}
use embedded_services.PowerPolicy.Service.Consumer.{
  current_psu, disconnect_if_connected, disconnect_chargers, leave_consumer, enter_consumer,
  post_consumer_connected, attach_charger, connect_new_consumer, same_consumer, disconnect_reason,
  switch_consumer,
}
use embedded_services.PowerPolicy.Service.Consumer.Frame.{
  attach_chargers-ChargersOnly, disconnect_chargers-ChargersOnly,
}

module _ {P C N K : Type 0} ⦃pd : PsuDriver P⦄ where
  abbrev pub consumes : Service P C N K → ℕ → Bool
  consumes s a = is_connected_consumer (psu_state s a)

  -- A PSU that consumes is the one in the books.
  pub record IsExclusive (s : Service P C N K) : Type 0 where
    pub only : (a : ℕ) → consumes s a ≡ true → current_psu s ≡ some a

  -- No PSU consumes.
  pub record IsVacant (s : Service P C N K) : Type 0 where
    pub idle : (a : ℕ) → consumes s a ≡ false

  -- The driver of the current consumer does not fail to disconnect.
  abbrev pub CanLeave : Service P C N K → Type 0
  CanLeave s = (a : ℕ) → current_psu s ≡ some a → (pd.disconnect (s.psu_at a)).0 ≡ ok tt

  pub vacant-IsExclusive : (s : Service P C N K) → IsVacant s → IsExclusive s
  vacant-IsExclusive s v = record { only = λ a h. ground (arith, v.idle a) }

  pub exclusive-IsVacant :
      (s : Service P C N K) → s.state.current_consumer_state ≡ none → IsExclusive s → IsVacant s
  exclusive-IsVacant s e x = record {
    idle = λ a. elim (Bool-cases (consumes s a)) [
      | inl busy ↦ ground (arith, x.only a busy)
      | inr free ↦ free
    ];
  }

  -- Both depend on the PSUs and on the current consumer alone.
  pub same-IsVacant : (s t : Service P C N K) → t.psu_at ≡ s.psu_at → IsVacant s → IsVacant t
  same-IsVacant s t e v = record { idle = λ a. rw e (v.idle a) }

  pub same-IsExclusive :
      (s t : Service P C N K)
      → t.psu_at ≡ s.psu_at
      → t.state.current_consumer_state ≡ s.state.current_consumer_state
      → IsExclusive s
      → IsExclusive t
  same-IsExclusive s t e f x = record { only = λ a. rw (e, f) (x.only a) }

module _ {P C N K : Type 0} ⦃pd : PsuDriver P⦄ ⦃cd : ChargerDriver C⦄ ⦃nd : Notifier N⦄
    (laws : PsuLaws P pd) where
  -- After its current consumer has been told to disconnect, if it consumed, nobody consumes.
  disconnect_if_connected-IsVacant :
      (s : Service P C N K) (a : ℕ)
      → ((b : ℕ) → consumes s b ≡ true → b ≡ a)
      → (pd.disconnect (s.psu_at a)).0 ≡ ok tt
      → ((disconnect_if_connected a s).0 ≡ ok tt) × IsVacant (disconnect_if_connected a s).1
  unfolding disconnect_if_connected call_disconnect is_connected_consumer
  disconnect_if_connected-IsVacant s a only leaves = elim (Bool-cases (consumes s a)) [
    | inl busy ↦ rw busy (leaves, record { idle = gone })
    | inr free ↦ rw free (refl, record { idle = untouched free })
  ]
    where
      gone : (b : ℕ) → consumes (call_disconnect a s).1 b ≡ false
      gone b = elim (Bool-cases (a == b)) [
        | inl same ↦ ground (arith, laws.disconnected (s.psu_at a) leaves)
        | inr other ↦ elim (Bool-cases (consumes s b)) [
          | inl c ↦ absurd (ground (arith, only b c))
          | inr c ↦ ground arith
        ]
      ]

      untouched : consumes s a ≡ false → (b : ℕ) → consumes s b ≡ false
      untouched free b = elim (Bool-cases (consumes s b)) [
        | inl c ↦ ground (arith, only b c)
        | inr c ↦ c
      ]

  abbrev Books : AvailableConsumer → Service P C N K → Service P C N K → Type 0
  Books new t u = (u.psu_at ≡ t.psu_at) × (u.state.current_consumer_state ≡ some new)

  -- The chargers and notifiers that follow a connection leave the PSUs alone, and the new consumer
  -- stays in the books even where a charger fails.
  post_consumer_connected-Books :
      (new : AvailableConsumer) (t : Service P C N K)
      → Books new t (post_consumer_connected new t).1
  unfolding post_consumer_connected notify_consumer_connected
  post_consumer_connected-Books new t =
      let t' = wait 800 (set_consumer (some new) t) in
      let c = new.consumer_power_capability in
      let k = attach_chargers-ChargersOnly c t.chargers t' in
      bind-keeps (Books new t) (λ s. for_each s.chargers (attach_charger c) s)
        (λ _. modify (notify_consumer_connected new.psu c)) t'
        (λ e _. (k.psu_at, ap (λ s. s.current_consumer_state) k.state))
        (λ _ _. (k.psu_at, ap (λ s. s.current_consumer_state) k.state))

  connected-IsExclusive :
      (s u : Service P C N K) (new : AvailableConsumer)
      → IsVacant s
      → Books new (call_connect_consumer new.psu new.consumer_power_capability s).1 u
      → IsExclusive u
  unfolding call_connect_consumer
  connected-IsExclusive s u new v b = record { only = λ a h. one a h }
    where
      one : (a : ℕ) → consumes u a ≡ true → current_psu u ≡ some a
      one a h = elim (Bool-cases (new.psu == a)) [
        | inl same ↦ ground (arith, b.1)
        | inr other ↦ absurd (ground (arith, v.idle a, ap (λ (f : ℕ → P). f a) b.0))
      ]

  refused-IsVacant :
      (s : Service P C N K) (a : ℕ) (c : ConsumerPowerCapability) (e : Error)
      → IsVacant s
      → (call_connect_consumer a c s).0 ≡ err e
      → IsVacant (call_connect_consumer a c s).1
  unfolding call_connect_consumer is_connected_consumer
  refused-IsVacant s a c e v h = record {
    idle = λ b. ground (arith, v.idle b, laws.refused_consumer c (s.psu_at a) e h);
  }

  -- Entering a consumer from a state in which nobody consumes.
  enter_consumer-IsExclusive :
      (s : Service P C N K) (new : AvailableConsumer)
      → IsVacant s
      → IsExclusive (enter_consumer new s).1
  unfolding enter_consumer
  enter_consumer-IsExclusive s new v =
      let c = new.consumer_power_capability in
      bind-keeps IsExclusive (λ s. (can_connect_consumer (psu_state s new.psu), s))
        (λ _. call_connect_consumer new.psu c >> post_consumer_connected new) s
        (λ e _. vacant-IsExclusive s v)
        (λ _ _.
          bind-keeps IsExclusive (call_connect_consumer new.psu c)
            (λ _. post_consumer_connected new) s
            (λ e h. vacant-IsExclusive _ (refused-IsVacant s new.psu c e v h))
            (λ _ _.
              connected-IsExclusive s _ new v
                (post_consumer_connected-Books new (call_connect_consumer new.psu c s).1)))

  -- Leaving the current consumer.
  leave_consumer-IsVacant :
      (s : Service P C N K) (current new : AvailableConsumer) (f : DisconnectFlags)
      → IsExclusive s
      → s.state.current_consumer_state ≡ some current
      → (pd.disconnect (s.psu_at current.psu)).0 ≡ ok tt
      → IsVacant (leave_consumer current new f s).1
  unfolding leave_consumer notify_consumer_disconnected
  leave_consumer-IsVacant s current new f x e leaves =
      let s1 = set_consumer none s in
      let d =
        disconnect_if_connected-IsVacant s1 current.psu (λ b h. ground (arith, x.only b h))
          leaves in
      let s2 = (disconnect_if_connected current.psu s1).1 in
      let k = disconnect_chargers-ChargersOnly s2 in
      let v = same-IsVacant s2 (disconnect_chargers s2).1 k.psu_at d.1 in
      let last : Exec (Service P C N K) Error (Unit {0}) = modify (
        notify_consumer_disconnected current.psu
          (record { reason = some (disconnect_reason current.psu new.psu f) })) in
      bind-keeps IsVacant (disconnect_if_connected current.psu) (λ _. disconnect_chargers >> last)
        s1 (λ e _. d.1)
        (λ _ _.
          bind-keeps IsVacant disconnect_chargers (λ _. last) s2 (λ e _. v)
            (λ _ _. same-IsVacant s2 (last (disconnect_chargers s2).1).1 k.psu_at d.1))

  -- Switching to a new consumer, from a state where at most the current consumer consumes and its
  -- driver can disconnect it.
  pub connect_new_consumer-IsExclusive :
      (s : Service P C N K) (new : AvailableConsumer) (f : DisconnectFlags)
      → IsExclusive s
      → CanLeave s
      → IsExclusive (connect_new_consumer new f s).1
  unfolding connect_new_consumer
  connect_new_consumer-IsExclusive s new f x leaves = go s.state.current_consumer_state refl
    where
      go :
          (o : Option AvailableConsumer)
          → s.state.current_consumer_state ≡ o
          → IsExclusive (switch_consumer o new f s).1
      go none e = enter_consumer-IsExclusive s new (exclusive-IsVacant s e x)
      go (some c) e = elim (Bool-cases (same_consumer c new)) [
        | inl same ↦ rw same x
        | inr other ↦
            let v = leave_consumer-IsVacant s c new f x e (leaves c.psu (ground (arith, e))) in
            rw other (
              bind-keeps IsExclusive (leave_consumer c new f) (λ _. enter_consumer new) s
                (λ _ _. vacant-IsExclusive (leave_consumer c new f s).1 v)
                (λ _ _. enter_consumer-IsExclusive (leave_consumer c new f s).1 new v))
      ]
