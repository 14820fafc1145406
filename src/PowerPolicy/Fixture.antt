-- ===== src/PowerPolicy/Fixture.antt =====
-- A PSU, a charger, a channel and an index set that meet what the service assumes of them, for
-- examples: the drivers run the state machines of the interface crate, and a PSU may be broken.
use embedded_services.Base.{
  ℕ, ◌≡◌, refl, Bool, true, false, not, ◌&&◌, ◌||◌, List, [], ◌∷◌, Result, ok, err, arith, length,
  ltb, ◌==◌, if◌then◌else◌,
}
use embedded_services.PowerPolicy.Capability.{ConsumerPowerCapability, ProviderPowerCapability}
use embedded_services.PowerPolicy.Charger
use embedded_services.PowerPolicy.Charger.{ChargerError, SupplyState}
use embedded_services.PowerPolicy.Psu
use embedded_services.PowerPolicy.Psu.{Error, failed, PsuState}
use embedded_services.PowerPolicy.Event.{Event}
use embedded_services.PowerPolicy.Event.Senders.{Sender, sender_notifier}
use embedded_services.PowerPolicy.Device.{
  PsuDriver, ChargerDriver, Notifier, IndexSet, IndexSetLaws,
}
use embedded_services.PowerPolicy.Device.Laws.{PsuLaws}

pub record TestPsu : Type 0 where
  pub state : Psu.State
  pub works : Bool

abbrev pub Reply : Type 0
Reply = Result (Unit {0}) Error × TestPsu

abbrev reply : TestPsu → Psu.Outcome → Reply
reply p r = if p.works then (r.0, record p { state = r.1 }) else (err failed, p)

unfoldable pub consume : ConsumerPowerCapability → TestPsu → Reply
unfolding Psu.connect_consumer
consume c p = reply p (Psu.connect_consumer c p.state)

unfoldable pub provide : ProviderPowerCapability → TestPsu → Reply
unfolding Psu.connect_provider
provide c p = reply p (Psu.connect_provider c p.state)

unfoldable pub leave : TestPsu → Reply
unfolding Psu.disconnect
leave p = reply p (Psu.disconnect false p.state)

instance abbrev pub test_psu : PsuDriver TestPsu
test_psu = record {
  state = λ p. p.state;
  disconnect = leave;
  connect_provider = provide;
  connect_consumer = consume;
}

consumed :
    (c : ConsumerPowerCapability) (p : TestPsu)
    → (consume c p).0 ≡ ok tt
    → (consume c p).1.state.psu_state ≡ PsuState.connected_consumer c
unfolding consume
consumed c p h = ground arith

not_consumed :
    (c : ConsumerPowerCapability) (p : TestPsu) (e : Error)
    → (consume c p).0 ≡ err e
    → (consume c p).1.state ≡ p.state
unfolding consume
not_consumed c p e h = ground arith

provided :
    (c : ProviderPowerCapability) (p : TestPsu)
    → (provide c p).0 ≡ ok tt
    → (provide c p).1.state.psu_state ≡ PsuState.connected_provider c
unfolding provide
provided c p h = ground arith

not_provided :
    (c : ProviderPowerCapability) (p : TestPsu) (e : Error)
    → (provide c p).0 ≡ err e
    → (provide c p).1.state ≡ p.state
unfolding provide
not_provided c p e h = ground arith

left : (p : TestPsu) → (leave p).0 ≡ ok tt → (leave p).1.state.psu_state ≡ PsuState.idle
unfolding leave
left p h = ground arith

pub test_psu_laws : PsuLaws TestPsu test_psu
test_psu_laws = record {
  connected_consumer = consumed;
  refused_consumer = not_consumed;
  connected_provider = provided;
  refused_provider = not_provided;
  disconnected = left;
}

-- A charger that is always ready and never fails.
instance abbrev pub test_charger : ChargerDriver Charger.State
test_charger = record {
  state = λ c. c;
  init_charger = λ c. (ok SupplyState.attached, (Charger.on_initialized SupplyState.attached c).1);
  attach_handler = λ k c. (ok tt, Charger.on_policy_attach k c);
  detach_handler = λ c. (ok tt, Charger.on_policy_detach c);
  is_ready = λ c. (ok tt, Charger.on_ready_success c);
}

-- A channel that keeps what was sent, newest first.
abbrev pub list_sender : Sender (List Event)
list_sender = record { send = λ e s. e ∷ s }

instance abbrev pub test_notifier : Notifier (List Event)
test_notifier = sender_notifier list_sender

-- A set of at most four numbers as a list.
unfoldable pub contains : ℕ → List ℕ → Bool
contains a [] = false
contains a (b ∷ s) = b == a || contains a s

unfoldable pub insert : ℕ → List ℕ → Result Bool ℕ × List ℕ
unfolding contains
insert a s =
    if contains a s
    then (ok false, s)
    else if ltb (length s) 4
    then (ok true, a ∷ s)
    else (err a, s)

unfoldable pub without : ℕ → List ℕ → List ℕ
without a [] = []
without a (b ∷ s) = let rest = without a s in if b == a then rest else b ∷ rest

instance abbrev pub test_set : IndexSet (List ℕ)
test_set = record {
  empty = [];
  contains = contains;
  insert = insert;
  remove = λ a s. (contains a s, without a s);
}

contains_cong : (a b : ℕ) (s : List ℕ) → contains a s ≡ true → (a == b) ≡ true → contains b s ≡ true
unfolding contains
contains_cong a b [] h e = h
contains_cong a b (x ∷ s) h e = ground (arith, contains_cong a b s)

contains-insert :
    (a b : ℕ) (s : List ℕ) (fresh : Bool)
    → (insert a s).0 ≡ ok fresh
    → contains b (insert a s).1 ≡ (a == b) || contains b s
unfolding contains insert
contains-insert a b s fresh h = ground (arith, contains_cong a b s)

insert_full : (a e : ℕ) (s : List ℕ) → (insert a s).0 ≡ err e → (insert a s).1 ≡ s
unfolding insert
insert_full a e s h = ground arith

contains-without : (a b : ℕ) (s : List ℕ) → contains b (without a s) ≡ not (a == b) && contains b s
unfolding contains without
contains-without a b [] = ground arith
contains-without a b (x ∷ s) = ground (arith, contains-without a b s)

pub test_set_laws : IndexSetLaws (List ℕ) test_set
unfolding contains
test_set_laws = record {
  contains-empty = λ a. refl;
  contains-insert = contains-insert;
  insert_full = insert_full;
  remove-contains = λ a s. refl;
  contains-remove = contains-without;
}
