-- ===== src/PowerPolicy/Psu/Table.antt =====
-- The methods of the PSU state against a table of what each does.
use embedded_services.Base.{
  ◌≡◌, refl, ◌≢◌, Bool, true, false, List, [], ◌∷◌, Option, none, some, Result, ok, err, arith,
  is_eq, if◌then◌else◌,
}
use embedded_services.PowerPolicy.Capability.{ConsumerPowerCapability, ProviderPowerCapability}
use embedded_services.PowerPolicy.Psu.{
  StateKind, Error, invalid_state, PsuState, State, Outcome, kind, attach, detach, disconnect,
  update_consumer_power_capability, update_requested_provider_power_capability, connect_consumer,
  connect_provider, Requested-discrete, can_connect_consumer, can_connect_provider,
}

-- The methods that change the state.
pub data Command : Type 0 where
  attaches detaches : Command
  disconnects : Bool → Command
  consumer_update : Option ConsumerPowerCapability → Command
  provider_update : Option ProviderPowerCapability → Command
  consume : ConsumerPowerCapability → Command
  provide : ProviderPowerCapability → Command

unfoldable pub apply : Command → State → Outcome
unfolding attach detach disconnect update_consumer_power_capability
    update_requested_provider_power_capability connect_consumer connect_provider kind
apply attaches s = attach s
apply detaches s = (ok tt, detach s)
apply (disconnects clear) s = disconnect clear s
apply (consumer_update c) s = update_consumer_power_capability c s
apply (provider_update c) s = update_requested_provider_power_capability c s
apply (consume c) s = connect_consumer c s
apply (provide c) s = connect_provider c s

-- Whether the command is allowed at a kind of state, as its documentation and its error say.
abbrev pub allows : Command → StateKind → Bool
allows attaches StateKind.detached = true
allows attaches _ = false
allows detaches _ = true
allows (disconnects clear) StateKind.detached = false
allows (disconnects clear) _ = true
allows (consumer_update c) StateKind.detached = false
allows (consumer_update c) _ = true
allows (provider_update c) StateKind.detached = false
allows (provider_update c) _ = true
allows (consume c) StateKind.idle = true
allows (consume c) StateKind.connected_consumer = true
allows (consume c) _ = false
allows (provide c) StateKind.idle = true
allows (provide c) StateKind.connected_provider = true
allows (provide c) _ = false

-- The states that the error of a refused command names.
abbrev pub expected : Command → List StateKind
expected attaches = StateKind.detached ∷ []
expected detaches = []
expected (disconnects clear) =
    StateKind.connected_consumer ∷ StateKind.connected_provider ∷ StateKind.idle ∷ []
expected (consumer_update c) =
    StateKind.idle ∷ StateKind.connected_consumer ∷ StateKind.connected_provider ∷ []
expected (provider_update c) =
    StateKind.idle ∷ StateKind.connected_provider ∷ StateKind.connected_consumer ∷ []
expected (consume c) = StateKind.idle ∷ StateKind.connected_consumer ∷ []
expected (provide c) = StateKind.idle ∷ StateKind.connected_provider ∷ []

-- A repeated provider request is answered with success before the state is looked at.
abbrev pub repeats : Command → State → Bool
repeats (provider_update c) s = is_eq Requested-discrete s.requested_provider_capability c
repeats _ s = false

abbrev pub verdict : Command → State → Result (Unit {0}) Error
verdict c s =
    if repeats c s
    then ok tt
    else if allows c (kind s.psu_state)
    then ok tt
    else err (invalid_state (expected c) (kind s.psu_state))

-- The capabilities that a command leaves.
abbrev pub consumer_after :
    Command → Option ConsumerPowerCapability → Option ConsumerPowerCapability
consumer_after detaches old = none
consumer_after (disconnects true) old = none
consumer_after (consumer_update c) old = c
consumer_after _ old = old

abbrev pub requested_after :
    Command → Option ProviderPowerCapability → Option ProviderPowerCapability
requested_after detaches old = none
requested_after (disconnects true) old = none
requested_after (provider_update c) old = c
requested_after _ old = old

-- The state of the PSU after a command. An attach and a disconnect lead to idle even where they are refused;
-- a refused connect leads nowhere.
abbrev pub psu_state_after : Command → PsuState → PsuState
psu_state_after attaches p = PsuState.idle
psu_state_after detaches p = PsuState.detached
psu_state_after (disconnects clear) p = PsuState.idle
psu_state_after (consumer_update c) p = p
psu_state_after (provider_update c) p = p
psu_state_after (consume c) p =
    if allows (consume c) (kind p) then PsuState.connected_consumer c else p
psu_state_after (provide c) p =
    if allows (provide c) (kind p) then PsuState.connected_provider c else p

abbrev AsTable : Command → State → Type 0
AsTable c s =
    ((apply c s).0 ≡ verdict c s)
    × ((apply c s).1 ≡ record {
      psu_state = psu_state_after c s.psu_state;
      consumer_capability = consumer_after c s.consumer_capability;
      requested_provider_capability = requested_after c s.requested_provider_capability;
    })

abbrev holding : PsuState → Option ConsumerPowerCapability → Option ProviderPowerCapability → State
holding p cc pc = record {
  psu_state = p;
  consumer_capability = cc;
  requested_provider_capability = pc;
}

-- A connect that is refused leaves the whole state as it was.
pub refused_connect :
    (cc : ConsumerPowerCapability) (pc : ProviderPowerCapability) (s : State)
    → ((can_connect_consumer s ≢ ok tt) → (connect_consumer cc s).1 ≡ s)
      × ((can_connect_provider s ≢ ok tt) → (connect_provider pc s).1 ≡ s)
unfolding connect_consumer connect_provider
refused_connect cc pc s = (λ h. ground arith, λ h. ground arith)

-- Nothing is offered or asked for by a detached device.
pub record IsClean (s : State) : Type 0 where
  pub no_consumer : s.psu_state ≡ PsuState.detached → s.consumer_capability ≡ none
  pub no_provider : s.psu_state ≡ PsuState.detached → s.requested_provider_capability ≡ none

-- A command that succeeds keeps a detached device free of capabilities.
pub apply-IsClean :
    (c : Command) (s : State) → IsClean s → (apply c s).0 ≡ ok tt → IsClean (apply c s).1
unfolding apply
apply-IsClean attaches s v h = record { no_consumer = λ e. cc; no_provider = λ e. cc }
apply-IsClean detaches s v h = record { no_consumer = λ e. refl; no_provider = λ e. refl }
apply-IsClean (disconnects true) s v h = record { no_consumer = λ e. cc; no_provider = λ e. cc }
apply-IsClean (disconnects false) s v h = record { no_consumer = λ e. cc; no_provider = λ e. cc }
apply-IsClean (consumer_update c) s v h = ground arith
apply-IsClean (provider_update c) s v h = ground arith
apply-IsClean (consume c) s v h = ground arith
apply-IsClean (provide c) s v h = ground arith

-- A refused update is stored all the same, so it leaves a detached device with a capability.
pub detached_update :
    (c : ConsumerPowerCapability) (s : State)
    → s.psu_state ≡ PsuState.detached
    → ((apply (consumer_update (some c)) s).0
        ≡ err (invalid_state (expected (consumer_update (some c))) StateKind.detached))
      × ¬ IsClean (apply (consumer_update (some c)) s).1
unfolding apply
detached_update c s e = (ground arith, λ v. ground (arith, v.no_consumer e))
