-- ===== src/PowerPolicy/Event/Senders.antt =====
-- power-policy-interface/src/service/event.rs: the notifiers over a channel. The channel is outside
-- this crate: `send` waits until there is room, so it always delivers; `try_send` tells whether it
-- delivered.
use embedded_services.Base.{Bool, true, false, Result, ok, err}
use embedded_services.PowerPolicy.Event.{Event}
use embedded_services.PowerPolicy.Device.{NotifyError, would_block, Notifier}

-- Sender<Event> and NonBlockingSender<Event>, of embedded-service/src/event.rs.
pub record Sender (S : Type 0) : Type 0 where
  pub send : Event → S → S

pub record NonBlockingSender (S : Type 0) : Type 0 where
  pub try_send : Event → S → Bool × S

module _ {S : Type 0} (c : Sender S) where
  abbrev sent : Event → S → Result (Unit {0}) NotifyError × S
  sent e s = (ok tt, c.send e s)

  -- SenderNotifier
  abbrev pub sender_notifier : Notifier S
  sender_notifier = record {
    notify_consumer_disconnected = λ p d. sent (Event.consumer_disconnected p d);
    notify_consumer_connected = λ p k. sent (Event.consumer_connected p k);
    notify_provider_disconnected = λ p. sent (Event.provider_disconnected p);
    notify_provider_connected = λ p k. sent (Event.provider_connected p k);
    notify_unconstrained = λ u. sent (Event.unconstrained u);
  }

module _ {S : Type 0} (c : NonBlockingSender S) where
  abbrev ok_or : Bool → Result (Unit {0}) NotifyError
  ok_or true = ok tt
  ok_or false = err would_block

  abbrev tried : Event → S → Result (Unit {0}) NotifyError × S
  tried e s = let r = c.try_send e s in (ok_or r.0, r.1)

  -- NonBlockingSenderNotifier
  abbrev pub non_blocking_sender_notifier : Notifier S
  non_blocking_sender_notifier = record {
    notify_consumer_disconnected = λ p d. tried (Event.consumer_disconnected p d);
    notify_consumer_connected = λ p k. tried (Event.consumer_connected p k);
    notify_provider_disconnected = λ p. tried (Event.provider_disconnected p);
    notify_provider_connected = λ p k. tried (Event.provider_connected p k);
    notify_unconstrained = λ u. tried (Event.unconstrained u);
  }
