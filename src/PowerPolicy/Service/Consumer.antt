-- ===== src/PowerPolicy/Service/Consumer.antt =====
-- power-policy-service/src/service/consumer.rs: choosing the supply to draw power from, and
-- switching to it.
pub mod Selection
pub mod Best
pub mod Frame
pub mod Exclusive
pub mod Switch
pub mod Unconstrained
pub mod Announced
pub mod Chargers
use embedded_services.Base.{
  ℕ, ◌+◌, ◌≡◌, Bool, true, false, not, ◌&&◌, List, [], ◌∷◌, Option, none, some, Result, ok, err,
  Ordering, ltb, ◌==◌, if◌then◌else◌, is_eq,
}
use mathlib.Core.List.{foldl}
use mathlib.Core.Option
use embedded_services.Base.Exec.{Exec, ◌>>=◌, ◌>>◌, pure, fail, lift, modify, for_each}
use embedded_services.PowerPolicy.Capability.{
  ConsumerPowerCapability, ConsumerPowerCapability-discrete, DisconnectReason, DisconnectFlags,
  auto_renegotiation, switching, max_power_mw, cmp,
}
use embedded_services.PowerPolicy.Charger.{is_unpowered}
use embedded_services.PowerPolicy.Psu.{Error, can_connect_consumer, is_connected_consumer}
use embedded_services.PowerPolicy.Event.{UnconstrainedState}
use embedded_services.PowerPolicy.Device.{PsuDriver, ChargerDriver, Notifier}
use embedded_services.PowerPolicy.Service.{
  Config, AvailableConsumer, Service, set_consumer, set_unconstrained, wait, psu_state,
  charger_state, call_disconnect, call_connect_consumer, call_is_ready, call_init_charger,
  call_attach_handler, call_detach_handler, notify_unconstrained, notify_consumer_connected,
  notify_consumer_disconnected,
}

-- The order on pairs of a capability and a flag: by power, then by the flag.
abbrev flag_order : Bool → Bool → Ordering
flag_order true false = Ordering.gt
flag_order false true = Ordering.lt
flag_order _ _ = Ordering.eq

abbrev then_with : Ordering → Ordering → Ordering
then_with Ordering.eq o = o
then_with Ordering.lt o = Ordering.lt
then_with Ordering.gt o = Ordering.gt

unfoldable pub cmp_consumer_capability_default :
    ConsumerPowerCapability → Bool → ConsumerPowerCapability → Bool → Ordering
unfolding cmp
cmp_consumer_capability_default a a_is_current b b_is_current =
    then_with (cmp a.capability b.capability) (flag_order a_is_current b_is_current)

abbrev pub Compare : Type 0
Compare = ConsumerPowerCapability → Bool → ConsumerPowerCapability → Bool → Ordering

abbrev pub is_greater : Ordering → Bool
is_greater Ordering.gt = true
is_greater _ = false

-- A capability under the configured minimum is passed over.
abbrev pub too_low : Option ConsumerPowerCapability → Option ℕ → Bool
too_low (some c) (some m) = ltb (max_power_mw c.capability) m
too_low _ _ = false

-- `ptr::eq` with the current consumer's PSU, if there is one.
abbrev pub is_current : Option ℕ → ℕ → Bool
is_current (some c) a = c == a
is_current none a = false

pick :
    Compare
    → Option ℕ
    → Option AvailableConsumer
    → ℕ
    → Option ConsumerPowerCapability
    → Option AvailableConsumer
pick f current none a none = none
pick f current none a (some c) = some (record { psu = a; consumer_power_capability = c })
pick f current (some b) a none = some b
pick f current (some b) a (some c) =
    if is_greater
      (f c (is_current current a) b.consumer_power_capability (is_current current b.psu))
    then some (record { psu = a; consumer_power_capability = c })
    else some b

-- One round of the loop over the PSUs; `offer` is the capability that a PSU offers.
unfoldable pub consider :
    Compare
    → Option ℕ
    → Option ℕ
    → (ℕ → Option ConsumerPowerCapability)
    → Option AvailableConsumer
    → ℕ
    → Option AvailableConsumer
unfolding pick
consider f threshold current offer best a =
    if too_low (offer a) threshold then best else pick f current best a (offer a)

unfoldable pub search_consumers :
    Compare
    → Option ℕ
    → Option ℕ
    → (ℕ → Option ConsumerPowerCapability)
    → Option AvailableConsumer
    → List ℕ
    → Option AvailableConsumer
search_consumers f threshold current offer best [] = best
search_consumers f threshold current offer best (a ∷ psus) =
    search_consumers f threshold current offer (consider f threshold current offer best a) psus

module _ {P C N K : Type 0} ⦃pd : PsuDriver P⦄ where
  abbrev pub offer_of : Service P C N K → ℕ → Option ConsumerPowerCapability
  offer_of s a = (psu_state s a).consumer_capability

  abbrev pub current_psu : Service P C N K → Option ℕ
  current_psu s = Option.map (λ c. c.psu) s.state.current_consumer_state

  unfoldable pub find_best_consumer_default :
      Compare → Service P C N K → Result (Option AvailableConsumer) Error
  find_best_consumer_default f s = ok (
      search_consumers f s.config.min_consumer_threshold_mw (current_psu s) (offer_of s) none
        s.psus)

  unfoldable pub offers_unconstrained : Service P C N K → ℕ → Bool
  offers_unconstrained s a = elim (offer_of s a) [
    | none ↦ false
    | some c ↦ c.flags.unconstrained_power
  ]

  unfoldable pub count_unconstrained : Service P C N K → List ℕ → ℕ
  count_unconstrained s [] = 0
  count_unconstrained s (a ∷ psus) =
      (if offers_unconstrained s a then 1 else 0) + count_unconstrained s psus

  unfoldable pub new_unconstrained : Service P C N K → UnconstrainedState
  new_unconstrained s = record {
    unconstrained = elim s.state.current_consumer_state [
      | none ↦ false
      | some c ↦ c.consumer_power_capability.flags.unconstrained_power
    ];
    available = count_unconstrained s s.psus;
  }

unfoldable pub UnconstrainedState-discrete : Discrete UnconstrainedState
UnconstrainedState-discrete = hlevel embedded_services.Base.ℕ_discrete

abbrev pub same_consumer : AvailableConsumer → AvailableConsumer → Bool
same_consumer a b =
    a.psu == b.psu
    && is_eq ConsumerPowerCapability-discrete b.consumer_power_capability
        a.consumer_power_capability

-- Why the current consumer is left.
unfoldable pub disconnect_reason : ℕ → ℕ → DisconnectFlags → DisconnectReason
disconnect_reason old new f =
    if old == new then auto_renegotiation else elim f.reason [ some r ↦ r | none ↦ switching ]

module _ {P C N K : Type 0} ⦃pd : PsuDriver P⦄ ⦃cd : ChargerDriver C⦄ ⦃nd : Notifier N⦄ where
  unfoldable pub update_unconstrained_state : Exec (Service P C N K) Error (Unit {0})
  update_unconstrained_state s =
      let u = new_unconstrained s in
      if not (is_eq UnconstrainedState-discrete u s.state.unconstrained)
      then (ok tt, notify_unconstrained u (set_unconstrained u s))
      else (ok tt, s)

  unfoldable pub attach_charger :
      ConsumerPowerCapability → ℕ → Exec (Service P C N K) Error (Unit {0})
  attach_charger c a s =
      (if is_unpowered (charger_state s a)
          then (call_is_ready a >> (call_init_charger a >> call_attach_handler a c))
          else call_attach_handler a c)
        s

  unfoldable pub post_consumer_connected :
      AvailableConsumer → Exec (Service P C N K) Error (Unit {0})
  post_consumer_connected connected = do
    modify (set_consumer (some connected))
    modify (wait 800)
    (λ s. for_each s.chargers (attach_charger connected.consumer_power_capability) s)
    modify (notify_consumer_connected connected.psu connected.consumer_power_capability)

  unfoldable pub detach_charger : ℕ → Exec (Service P C N K) Error (Unit {0})
  detach_charger a s =
      if not (is_unpowered (charger_state s a)) then call_detach_handler a s else (ok tt, s)

  -- Disconnect all chargers, skipping over unpowered ones.
  unfoldable pub disconnect_chargers : Exec (Service P C N K) Error (Unit {0})
  disconnect_chargers s = for_each s.chargers detach_charger s

  unfoldable pub disconnect_if_connected : ℕ → Exec (Service P C N K) Error (Unit {0})
  disconnect_if_connected a s =
      if is_connected_consumer (psu_state s a) then call_disconnect a s else (ok tt, s)

  unfoldable pub leave_consumer :
      AvailableConsumer
      → AvailableConsumer
      → DisconnectFlags
      → Exec (Service P C N K) Error (Unit {0})
  leave_consumer current new f = do
    modify (set_consumer none)
    disconnect_if_connected current.psu
    disconnect_chargers
    modify (
        notify_consumer_disconnected current.psu
          (record { reason = some (disconnect_reason current.psu new.psu f) }))

  unfoldable pub enter_consumer : AvailableConsumer → Exec (Service P C N K) Error (Unit {0})
  enter_consumer new = do
    (λ s. (can_connect_consumer (psu_state s new.psu), s))
    call_connect_consumer new.psu new.consumer_power_capability
    post_consumer_connected new

  unfoldable pub switch_consumer :
      Option AvailableConsumer
      → AvailableConsumer
      → DisconnectFlags
      → Exec (Service P C N K) Error (Unit {0})
  switch_consumer none new f = enter_consumer new
  switch_consumer (some current) new f =
      if same_consumer current new
      then pure tt
      else (leave_consumer current new f >> enter_consumer new)

  unfoldable pub connect_new_consumer :
      AvailableConsumer → DisconnectFlags → Exec (Service P C N K) Error (Unit {0})
  unfolding switch_consumer
  connect_new_consumer new f s = switch_consumer s.state.current_consumer_state new f s

  -- No supply is worth drawing from: the current one, if any, is given up.
  unfoldable pub release_consumer :
      Option AvailableConsumer → DisconnectFlags → Exec (Service P C N K) Error (Unit {0})
  release_consumer none f = modify (set_consumer none)
  release_consumer (some current) f = do
    disconnect_chargers
    modify (notify_consumer_disconnected current.psu f)
    modify (set_consumer none)

  unfoldable pub follow_best :
      Option AvailableConsumer → DisconnectFlags → Exec (Service P C N K) Error (Unit {0})
  unfolding connect_new_consumer release_consumer
  follow_best (some best) f s = connect_new_consumer best f s
  follow_best none f s = release_consumer s.state.current_consumer_state f s

  -- With the default customization.
  unfoldable pub update_current_consumer : DisconnectFlags → Exec (Service P C N K) Error (Unit {0})
  update_current_consumer f = do
    best ← (λ s. (find_best_consumer_default cmp_consumer_capability_default s, s))
    follow_best best f
    update_unconstrained_state
