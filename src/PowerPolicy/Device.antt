-- ===== src/PowerPolicy/Device.antt =====
-- What the service is generic over: the traits of the PSU, the charger and the notifier, as records
-- of methods that take the object and give it back beside the result, and heapless's index set,
-- which is not part of this repository, by its documented behaviour.
pub mod Laws
use embedded_services.Base.{ℕ, ◌≡◌, Bool, true, false, not, ◌&&◌, ◌||◌, Result, ok, err, ◌==◌}
use embedded_services.PowerPolicy.Capability.{
  ConsumerPowerCapability, ProviderPowerCapability, DisconnectFlags,
}
use embedded_services.PowerPolicy.Charger
use embedded_services.PowerPolicy.Charger.{ChargerError, SupplyState}
use embedded_services.PowerPolicy.Psu
use embedded_services.PowerPolicy.Event.{UnconstrainedState}

-- psu/mod.rs, trait Psu
pub record PsuDriver (P : Type 0) : Type 0 where
  pub state : P → Psu.State
  pub disconnect : P → Result (Unit {0}) Psu.Error × P
  pub connect_provider : ProviderPowerCapability → P → Result (Unit {0}) Psu.Error × P
  pub connect_consumer : ConsumerPowerCapability → P → Result (Unit {0}) Psu.Error × P

-- charger/mod.rs, trait Charger, with its errors converted by `into`
pub record ChargerDriver (C : Type 0) : Type 0 where
  pub state : C → Charger.State
  pub init_charger : C → Result SupplyState ChargerError × C
  pub attach_handler : ConsumerPowerCapability → C → Result (Unit {0}) ChargerError × C
  pub detach_handler : C → Result (Unit {0}) ChargerError × C
  pub is_ready : C → Result (Unit {0}) ChargerError × C

pub data NotifyError : Type 0 where
  would_block : NotifyError

-- service/notification.rs, trait Notifier
pub record Notifier (N : Type 0) : Type 0 where
  pub notify_consumer_disconnected : ℕ → DisconnectFlags → N → Result (Unit {0}) NotifyError × N
  pub notify_consumer_connected :
      ℕ → ConsumerPowerCapability → N → Result (Unit {0}) NotifyError × N
  pub notify_provider_disconnected : ℕ → N → Result (Unit {0}) NotifyError × N
  pub notify_provider_connected :
      ℕ → ProviderPowerCapability → N → Result (Unit {0}) NotifyError × N
  pub notify_unconstrained : UnconstrainedState → N → Result (Unit {0}) NotifyError × N

-- heapless::index_set::FnvIndexSet<usize, 4>. An insertion fails only where the set is full.
pub record IndexSet (K : Type 0) : Type 0 where
  pub empty : K
  pub contains : ℕ → K → Bool
  pub insert : ℕ → K → Result Bool ℕ × K
  pub remove : ℕ → K → Bool × K

-- What the documentation of the index set says of the operations.
pub record IndexSetLaws (K : Type 0) (k : IndexSet K) : Type 0 where
  pub contains-empty : (a : ℕ) → k.contains a k.empty ≡ false
  pub contains-insert :
      (a b : ℕ) (s : K) (fresh : Bool)
      → (k.insert a s).0 ≡ ok fresh
      → k.contains b (k.insert a s).1 ≡ (a == b) || k.contains b s
  pub insert_full : (a e : ℕ) (s : K) → (k.insert a s).0 ≡ err e → (k.insert a s).1 ≡ s
  pub remove-contains : (a : ℕ) (s : K) → (k.remove a s).0 ≡ k.contains a s
  pub contains-remove :
      (a b : ℕ) (s : K) → k.contains b (k.remove a s).1 ≡ not (a == b) && k.contains b s
