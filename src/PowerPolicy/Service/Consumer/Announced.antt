-- ===== src/PowerPolicy/Service/Consumer/Announced.antt =====
-- What the unconstrained state means, and when it is announced.
use embedded_services.Base.{
  ℕ, suc, ◌+◌, ◌≡◌, ◌↔◌, ◌⊎◌, refl, ◌∙◌, ap, ◌≢◌, subst, inl, inr, Bool, true, false, List, [], ◌∷◌,
  Option, none, some, Result, ok, arith, Bool-cases, is_eq, is_eq_iff,
}
use embedded_services.PowerPolicy.Capability.{ConsumerPowerCapability}
use embedded_services.PowerPolicy.Psu.{Error}
use embedded_services.PowerPolicy.Event.{Event}
use embedded_services.PowerPolicy.Device.{PsuDriver, ChargerDriver, Notifier}
use embedded_services.PowerPolicy.Service.{
  Service, AvailableConsumer, broadcast, psu_state, notify_unconstrained,
}
use embedded_services.PowerPolicy.Service.Consumer.{
  offer_of, offers_unconstrained, count_unconstrained, new_unconstrained,
  update_unconstrained_state, UnconstrainedState-discrete,
}

-- A flag of what may be there.
flag_iff :
    {A : Type 0} (flag : A → Bool) (o : Option A)
    → (elim o [ none ↦ false | some c ↦ flag c ] ≡ true)
      ↔ ((c : A) × (o ≡ some c) × (flag c ≡ true))
flag_iff flag none = (λ h. absurd (ground (arith, h)), λ k. absurd (ground (arith, k.1)))
flag_iff {A} flag (some c) = (λ h. (c, refl, h), λ k. ap found k.1 ∙ k.2)
  where
    found : Option A → Bool
    found (some c) = flag c
    found none = false

module _ {P C N K : Type 0} ⦃pd : PsuDriver P⦄ where
  -- A PSU offers a capability that is unconstrained.
  abbrev pub Offers : Service P C N K → ℕ → Type 0
  Offers s a =
      (c : ConsumerPowerCapability) × ((psu_state s a).consumer_capability ≡ some c)
      × (c.flags.unconstrained_power ≡ true)

  -- `n` of the PSUs offer unconstrained power.
  abbrev pub Count : Service P C N K → List ℕ → ℕ → Type 0
  Count s [] n = n ≡ 0
  Count s (a ∷ psus) n =
      (Offers s a × ((m : ℕ) × (n ≡ suc m) × Count s psus m)) ⊎ (¬ Offers s a × Count s psus n)

  -- The current consumer, if there is one, is unconstrained.
  abbrev pub IsUnconstrained : Service P C N K → Type 0
  IsUnconstrained s =
      (c : AvailableConsumer) × (s.state.current_consumer_state ≡ some c)
      × (c.consumer_power_capability.flags.unconstrained_power ≡ true)

  offers_unconstrained_iff :
      (s : Service P C N K) (a : ℕ) → (offers_unconstrained s a ≡ true) ↔ Offers s a
  unfolding offers_unconstrained
  offers_unconstrained_iff s a = flag_iff (λ c. c.flags.unconstrained_power) (offer_of s a)

  count_unconstrained-Count :
      (s : Service P C N K) (psus : List ℕ) → Count s psus (count_unconstrained s psus)
  unfolding count_unconstrained
  count_unconstrained-Count s [] = refl
  count_unconstrained-Count s (a ∷ psus) =
      let rest = count_unconstrained-Count s psus in
      elim (Bool-cases (offers_unconstrained s a)) [
        | inl e ↦ rw e (
            inl
              ((offers_unconstrained_iff s a).0 e, (count_unconstrained s psus, omega arith, rest)))
        | inr e ↦
            let n : 0 + count_unconstrained s psus ≡ count_unconstrained s psus = omega arith in
            rw (e, n) (inr (λ o. ground (arith, e, (offers_unconstrained_iff s a).1 o), rest))
      ]

  new_unconstrained_iff :
      (s : Service P C N K) → ((new_unconstrained s).unconstrained ≡ true) ↔ IsUnconstrained s
  unfolding new_unconstrained
  new_unconstrained_iff s =
      flag_iff (λ c. c.consumer_power_capability.flags.unconstrained_power)
        s.state.current_consumer_state

module _ {P C N K : Type 0} ⦃pd : PsuDriver P⦄ ⦃cd : ChargerDriver C⦄ ⦃nd : Notifier N⦄ where
  abbrev pub IsAnnounced : Service P C N K → Result (Unit {0}) Error × Service P C N K → Type 0
  IsAnnounced s r =
      let u = r.1.state.unconstrained in
      (r.0 ≡ ok tt)
      × ((u.unconstrained ≡ true) ↔ IsUnconstrained s)
      × Count s s.psus u.available
      × (((u ≡ s.state.unconstrained) × (r.1 ≡ s))
          ⊎ ((u ≢ s.state.unconstrained)
              × (r.1.effects ≡ broadcast (Event.unconstrained u) ∷ s.effects)))

  -- The update always succeeds, and the state then says that the system is unconstrained exactly if there is
  -- a current consumer with the flag for it, and counts the registered PSUs that offer a capability with
  -- the flag. Where that is what it said before, the service is left as it was; otherwise it is announced
  -- once, with nothing else called or announced.
  pub update_unconstrained_state-IsAnnounced :
      (s : Service P C N K) → IsAnnounced s (update_unconstrained_state s)
  unfolding update_unconstrained_state notify_unconstrained
  update_unconstrained_state-IsAnnounced s =
      let u = new_unconstrained s in
      let flag = new_unconstrained_iff s in
      let counted : Count s s.psus u.available =
        unfold new_unconstrained in count_unconstrained-Count s s.psus in
      elim (Bool-cases (is_eq UnconstrainedState-discrete u s.state.unconstrained)) [
        | inl e ↦
            let same = (is_eq_iff UnconstrainedState-discrete u s.state.unconstrained).0 e in
            rw e (
              refl,
              subst (λ v. (v.unconstrained ≡ true) ↔ IsUnconstrained s) same flag,
              subst (λ v. Count s s.psus v.available) same counted,
              inl (refl, refl),
            )
        | inr e ↦ rw e (
          refl,
          flag,
          counted,
          inr (
            λ k.
                ground
                  (arith, e, (is_eq_iff UnconstrainedState-discrete u s.state.unconstrained).1 k),
            refl,
          ),
        )
      ]
