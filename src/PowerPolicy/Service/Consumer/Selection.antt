-- ===== src/PowerPolicy/Service/Consumer/Selection.antt =====
-- What `find_best_consumer_default` finds: a maximum of the offers.
use embedded_services.Base.{
  ℕ, suc, ◌+◌, ◌*◌, ◌≤◌, max, ◌≡◌, refl, ◌⊎◌, inl, inr, Bool, false, List, [], ◌∷◌, Option, none,
  some, arith, ltb, if◌then◌else◌, All, Bool-cases, ◌∙◌,
}
use embedded_services.PowerPolicy.Capability.{ConsumerPowerCapability, max_power_mw}
use embedded_services.PowerPolicy.Service.{AvailableConsumer}
use embedded_services.PowerPolicy.Service.Consumer.{
  cmp_consumer_capability_default, is_greater, too_low, is_current, pick, consider,
  search_consumers,
}

-- The place of an offer in the order: the power decides, then whether it is the current one.
abbrev pub rank : ConsumerPowerCapability → Bool → ℕ
rank c current = 2 * max_power_mw c.capability + (if current then 1 else 0)

cmp-rank :
    (a b : ConsumerPowerCapability) (x y : Bool)
    → is_greater (cmp_consumer_capability_default a x b y) ≡ ltb (rank b y) (rank a x)
unfolding cmp_consumer_capability_default
cmp-rank a b x y = ground arith

-- Some entry of the list is the address.
abbrev pub Registered : ℕ → List ℕ → Type 0
Registered a [] = ⊥
Registered a (b ∷ bs) = (a ≡ b) ⊎ Registered a bs

module _ (threshold current : Option ℕ) (offer : ℕ → Option ConsumerPowerCapability) where
  -- 0 for no consumer, else one more than the rank.
  abbrev pub score : Option AvailableConsumer → ℕ
  score none = 0
  score (some b) = suc (rank b.consumer_power_capability (is_current current b.psu))

  abbrev pub score_of_offer : ℕ → Option ConsumerPowerCapability → ℕ
  score_of_offer a none = 0
  score_of_offer a (some c) = suc (rank c (is_current current a))

  abbrev pub offer_score : ℕ → ℕ
  offer_score a = if too_low (offer a) threshold then 0 else score_of_offer a (offer a)

  score-pick :
      (best : Option AvailableConsumer) (a : ℕ) (o : Option ConsumerPowerCapability)
      → score (pick cmp_consumer_capability_default current best a o)
        ≡ max (score best) (score_of_offer a o)
  unfolding pick
  score-pick none a none = omega arith
  score-pick none a (some c) = omega arith
  score-pick (some b) a none = omega arith
  score-pick (some b) a (some c) = ground (
    arith,
    cmp-rank c b.consumer_power_capability (is_current current a) (is_current current b.psu),
  )

  score-consider :
      (best : Option AvailableConsumer) (a : ℕ)
      → score (consider cmp_consumer_capability_default threshold current offer best a)
        ≡ max (score best) (offer_score a)
  unfolding consider
  score-consider best a = elim (Bool-cases (too_low (offer a) threshold)) [
    | inl low ↦ rw low (omega arith)
    | inr fits ↦ rw fits (score-pick best a (offer a))
  ]

  abbrev pub found : Option AvailableConsumer → List ℕ → Option AvailableConsumer
  found = search_consumers cmp_consumer_capability_default threshold current offer

  pub score-found_le :
      (best : Option AvailableConsumer) (psus : List ℕ) → score best ≤ score (found best psus)
  unfolding search_consumers
  score-found_le best [] = omega arith
  score-found_le best (a ∷ psus) =
      let next = consider cmp_consumer_capability_default threshold current offer best a in
      omega (arith, score-consider best a, score-found_le next psus)

  pub found_maximal :
      (best : Option AvailableConsumer) (psus : List ℕ)
      → All (λ a. offer_score a ≤ score (found best psus)) psus
  unfolding search_consumers
  found_maximal best [] = tt
  found_maximal best (a ∷ psus) =
      let next = consider cmp_consumer_capability_default threshold current offer best a in
      (omega (arith, score-consider best a, score-found_le next psus), found_maximal next psus)

  -- A consumer that is in the books as its PSU offers it.
  abbrev pub Genuine : Option AvailableConsumer → Type 0
  Genuine none = Unit
  Genuine (some b) =
      (offer b.psu ≡ some b.consumer_power_capability)
      × (too_low (some b.consumer_power_capability) threshold ≡ false)

  pick-Genuine :
      (best : Option AvailableConsumer) (a : ℕ) (o : Option ConsumerPowerCapability)
      → Genuine best
      → offer a ≡ o
      → too_low o threshold ≡ false
      → Genuine (pick cmp_consumer_capability_default current best a o)
  unfolding pick
  pick-Genuine none a none g e f = tt
  pick-Genuine none a (some c) g e f = (e, f)
  pick-Genuine (some b) a none g e f = g
  pick-Genuine (some b) a (some c) g e f = ground arith

  consider-Genuine :
      (best : Option AvailableConsumer) (a : ℕ)
      → Genuine best
      → Genuine (consider cmp_consumer_capability_default threshold current offer best a)
  unfolding consider
  consider-Genuine best a g = elim (Bool-cases (too_low (offer a) threshold)) [
    | inl low ↦ rw low g
    | inr fits ↦ rw fits (pick-Genuine best a (offer a) g refl fits)
  ]

  pub found-Genuine :
      (best : Option AvailableConsumer) (psus : List ℕ) → Genuine best → Genuine (found best psus)
  unfolding search_consumers
  found-Genuine best [] g = g
  found-Genuine best (a ∷ psus) g =
      found-Genuine (consider cmp_consumer_capability_default threshold current offer best a) psus
        (consider-Genuine best a g)

  -- Where a consumer may have been found: it was there before, or its PSU is in the list.
  abbrev pub Source : Option AvailableConsumer → List ℕ → Option AvailableConsumer → Type 0
  Source best psus none = Unit
  Source best psus (some b) = (best ≡ some b) ⊎ Registered b.psu psus

  pick-Source :
      (best : Option AvailableConsumer) (a : ℕ) (o : Option ConsumerPowerCapability)
      → Source best (a ∷ []) (pick cmp_consumer_capability_default current best a o)
  unfolding pick
  pick-Source none a none = tt
  pick-Source none a (some c) = inr (inl refl)
  pick-Source (some b) a none = inl refl
  pick-Source (some b) a (some c) =
      elim (Bool-cases (
        is_greater (
          cmp_consumer_capability_default c (is_current current a) b.consumer_power_capability
            (is_current current b.psu)))) [
              | inl gt ↦ rw gt (inr (inl refl))
              | inr le ↦ rw le (inl refl)
            ]

  consider-Source :
      (best : Option AvailableConsumer) (a : ℕ)
      → Source best
          (a ∷ [])
          (consider cmp_consumer_capability_default threshold current offer best a)
  unfolding consider
  consider-Source best a = elim (Bool-cases (too_low (offer a) threshold)) [
    | inl low ↦ rw low (same best)
    | inr fits ↦ rw fits (pick-Source best a (offer a))
  ]
    where
      same : (o : Option AvailableConsumer) → Source o (a ∷ []) o
      same none = tt
      same (some b) = inl refl

  Source-trans :
      (best next r : Option AvailableConsumer) (a : ℕ) (psus : List ℕ)
      → Source best (a ∷ []) next
      → Source next psus r
      → Source best (a ∷ psus) r
  Source-trans best next none a psus p q = tt
  Source-trans best next (some b) a psus p (inr q) = inr (inr q)
  Source-trans best none (some b) a psus p (inl q) = cc
  Source-trans best (some c) (some b) a psus (inl p) (inl q) = inl (p ∙ q)
  Source-trans best (some c) (some b) a psus (inr (inl p)) (inl q) = inr (inl (ground arith))
  Source-trans best (some c) (some b) a psus (inr (inr p)) (inl q) = elim p [ ]

  pub found-Source :
      (best : Option AvailableConsumer) (psus : List ℕ) → Source best psus (found best psus)
  unfolding search_consumers
  found-Source best [] = same best
    where
      same : (o : Option AvailableConsumer) → Source o [] o
      same none = tt
      same (some b) = inl refl
  found-Source best (a ∷ psus) =
      let next = consider cmp_consumer_capability_default threshold current offer best a in
      Source-trans best next (found next psus) a psus (consider-Source best a)
        (found-Source next psus)
