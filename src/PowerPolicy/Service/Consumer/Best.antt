-- ===== src/PowerPolicy/Service/Consumer/Best.antt =====
-- `find_best_consumer_default` with the default comparison, as a specification.
use embedded_services.Base.{
  ℕ, suc, ◌≤◌, ◌≡◌, refl, inl, inr, Bool, true, false, Option, none, some, ok, arith, All, All-map,
  ==_refl,
}
use embedded_services.PowerPolicy.Capability.{ConsumerPowerCapability, max_power_mw}
use embedded_services.PowerPolicy.Device.{PsuDriver}
use embedded_services.PowerPolicy.Service.{AvailableConsumer, Service}
use embedded_services.PowerPolicy.Service.Consumer.{
  cmp_consumer_capability_default, too_low, is_current, offer_of, current_psu,
  find_best_consumer_default,
}
use embedded_services.PowerPolicy.Service.Consumer.Selection.{
  rank, Registered, score, offer_score, found, found_maximal, found-Genuine, found-Source, Genuine,
  Source,
}

module _ {P C N K : Type 0} ⦃pd : PsuDriver P⦄ (s : Service P C N K) where
  -- The PSU offers the capability, and it reaches the configured minimum.
  abbrev pub Offers : ℕ → ConsumerPowerCapability → Type 0
  Offers a c =
      (offer_of s a ≡ some c) × (too_low (some c) s.config.min_consumer_threshold_mw ≡ false)

  -- `b` is a registered offer of the greatest power; where the current consumer offers as much, it
  -- is the current consumer's.
  pub record IsBest (b : AvailableConsumer) : Type 0 where
    pub registered : Registered b.psu s.psus
    pub offers : Offers b.psu b.consumer_power_capability
    pub strongest :
        All
          (λ a.
            (c : ConsumerPowerCapability)
            → Offers a c
            → (max_power_mw c.capability ≤ max_power_mw b.consumer_power_capability.capability)
              × (max_power_mw c.capability ≡ max_power_mw b.consumer_power_capability.capability
                  → current_psu s ≡ some a
                  → b.psu ≡ a))
          s.psus

  -- No registered PSU offers enough.
  abbrev pub NoOffer : Type 0
  NoOffer = All (λ a. (c : ConsumerPowerCapability) → ¬ Offers a c) s.psus

  abbrev pub Chosen : Option AvailableConsumer → Type 0
  Chosen none = NoOffer
  Chosen (some b) = IsBest b

  score_of-Offers :
      (a : ℕ) (c : ConsumerPowerCapability)
      → Offers a c
      → offer_score s.config.min_consumer_threshold_mw (current_psu s) (offer_of s) a
        ≡ suc (rank c (is_current (current_psu s) a))
  score_of-Offers a c o = rw (o.0, o.1) refl

  current_is : (o : Option ℕ) (a : ℕ) → o ≡ some a → is_current o a ≡ true
  current_is o a e = rw e (==_refl a)

  is_current_iff : (o : Option ℕ) (a b : ℕ) → o ≡ some a → is_current o b ≡ true → b ≡ a
  is_current_iff o a b e h = ground arith

  beats :
      (b : AvailableConsumer) (a : ℕ) (c : ConsumerPowerCapability)
      → rank c (is_current (current_psu s) a)
        ≤ rank b.consumer_power_capability (is_current (current_psu s) b.psu)
      → (max_power_mw c.capability ≤ max_power_mw b.consumer_power_capability.capability)
        × (max_power_mw c.capability ≡ max_power_mw b.consumer_power_capability.capability
            → current_psu s ≡ some a
            → b.psu ≡ a)
  beats b a c h = (
    ground arith,
    λ e cur.
        is_current_iff (current_psu s) a b.psu cur
          (tie (is_current (current_psu s) b.psu) e (current_is (current_psu s) a cur)),
  )
    where
      tie :
          (x : Bool)
          → max_power_mw c.capability ≡ max_power_mw b.consumer_power_capability.capability
          → is_current (current_psu s) a ≡ true
          → is_current (current_psu s) b.psu ≡ true
      tie x e t = ground arith

  chosen :
      (o : Option AvailableConsumer)
      → Genuine s.config.min_consumer_threshold_mw (current_psu s) (offer_of s) o
      → Source s.config.min_consumer_threshold_mw (current_psu s) (offer_of s) none s.psus o
      → All
          (λ a.
            offer_score s.config.min_consumer_threshold_mw (current_psu s) (offer_of s) a
            ≤ score s.config.min_consumer_threshold_mw (current_psu s) (offer_of s) o)
          s.psus
      → Chosen o
  chosen none g f m = All-map (λ a le c o. omega (arith, score_of-Offers a c o)) s.psus m
  chosen (some b) g (inl f) m = cc
  chosen (some b) g (inr f) m = record {
    registered = f;
    offers = g;
    strongest = All-map (λ a le c o. beats b a c (omega (arith, score_of-Offers a c o))) s.psus m;
  }

  -- The default search always returns, and returns a strongest registered offer that reaches the
  -- minimum, with the current consumer winning a tie; it returns none only if there is no such offer.
  pub find_best_consumer_default_lem :
      (o : Option AvailableConsumer) × (find_best_consumer_default cmp_consumer_capability_default s
        ≡ ok o)
      × Chosen o
  unfolding find_best_consumer_default
  find_best_consumer_default_lem =
      let t = s.config.min_consumer_threshold_mw in
      let cur = current_psu s in
      let offer = offer_of s in
      (
        found t cur offer none s.psus,
        refl,
        chosen (found t cur offer none s.psus) (found-Genuine t cur offer none s.psus tt)
            (found-Source t cur offer none s.psus) (found_maximal t cur offer none s.psus),
      )
