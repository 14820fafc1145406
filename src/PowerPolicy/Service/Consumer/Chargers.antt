-- ===== src/PowerPolicy/Service/Consumer/Chargers.antt =====
-- The calls that a switch of consumers makes on the chargers.
use embedded_services.Base.{
  ℕ, ◌≡◌, ◌⊎◌, refl, sym, ap, ◌∙◌, inl, inr, Bool, true, false, ◌||◌, subst, List, [], ◌∷◌, ◌++◌,
  ok, ◌==◌, Bool-cases, if◌then◌else◌,
}
use embedded_services.Base.Exec.{Exec, for_each, ◌>>◌, bind-ok}
use embedded_services.Base.Store.{write}
use embedded_services.PowerPolicy.Capability.{ConsumerPowerCapability}
use embedded_services.PowerPolicy.Charger.{is_unpowered}
use embedded_services.PowerPolicy.Psu.{Error}
use embedded_services.PowerPolicy.Device.{PsuDriver, ChargerDriver, Notifier}
use embedded_services.PowerPolicy.Service.{
  Service, Effect, charger_is_ready, charger_init, charger_detach, charger_attach, charger_state,
  call_is_ready, call_init_charger, call_attach_handler, call_detach_handler,
}
use embedded_services.PowerPolicy.Service.Consumer.{
  attach_charger, detach_charger, disconnect_chargers,
}

-- The calls on one charger, the latest first: a powered charger is detached and an unpowered one is skipped;
-- and an unpowered one is made ready and initialised before it is attached.
abbrev pub detach_calls : Bool → ℕ → List Effect
detach_calls unpowered a = if unpowered then [] else charger_detach a ∷ []

abbrev pub attach_calls : Bool → ConsumerPowerCapability → ℕ → List Effect
attach_calls unpowered c a =
    if unpowered
    then charger_attach a c ∷ charger_init a ∷ charger_is_ready a ∷ []
    else charger_attach a c ∷ []

abbrev among : ℕ → List ℕ → Bool
among a [] = false
among a (b ∷ bs) = b == a || among a bs

append_assoc : {A : Type 0} (xs ys zs : List A) → (xs ++ ys) ++ zs ≡ xs ++ (ys ++ zs)
append_assoc [] ys zs = refl
append_assoc (x ∷ xs) ys zs = ap (λ l. x ∷ l) (append_assoc xs ys zs)

module _ {C : Type 0} ⦃cd : ChargerDriver C⦄ where
  written :
      (at : ℕ → C) (a : ℕ) (x : C) (b : ℕ)
      → (a == b) ≡ false
      → cd.state (write at a x b) ≡ cd.state (at b)
  written at a x b n = rw n refl

module _ {P C N K : Type 0} ⦃pd : PsuDriver P⦄ ⦃cd : ChargerDriver C⦄ ⦃nd : Notifier N⦄ where
  -- The calls on some chargers one after the other, the latest first, of which each is called as its state
  -- in `s` asks for, unless it stood among those before and its state may have changed.
  abbrev pub CallsFrom :
      (Bool → ℕ → List Effect) → Service P C N K → List ℕ → List ℕ → List Effect → Type 0
  CallsFrom calls s seen [] es = es ≡ []
  CallsFrom calls s seen (a ∷ chargers) es =
      (unpowered : Bool) × (rest : List Effect) × (es ≡ rest ++ calls unpowered a)
      × ((among a seen ≡ true) ⊎ (unpowered ≡ is_unpowered (charger_state s a)))
      × CallsFrom calls s (a ∷ seen) chargers rest

  -- Every registered charger is called, in the order of registration.
  abbrev pub Calls : (Bool → ℕ → List Effect) → Service P C N K → List Effect → Type 0
  Calls calls s es = CallsFrom calls s [] s.chargers es

  -- A call on one charger that makes these calls and changes no other charger.
  abbrev IsCall : (Bool → ℕ → List Effect) → (ℕ → Exec (Service P C N K) Error (Unit {0})) → Type 0
  IsCall calls m =
      (a : ℕ) (t : Service P C N K)
      → (m a t).0 ≡ ok tt
      → ((m a t).1.effects ≡ calls (is_unpowered (charger_state t a)) a ++ t.effects)
        × ((b : ℕ) → (a == b) ≡ false → charger_state (m a t).1 b ≡ charger_state t b)

  abbrev Unseen : Service P C N K → List ℕ → Service P C N K → Type 0
  Unseen s seen t = (b : ℕ) → (among b seen ≡ true) ⊎ (charger_state t b ≡ charger_state s b)

  for_each-ok :
      (m : ℕ → Exec (Service P C N K) Error (Unit {0})) (a : ℕ) (chargers : List ℕ)
      (t : Service P C N K)
      → (for_each (a ∷ chargers) m t).0 ≡ ok tt
      → ((m a t).0 ≡ ok tt) × (for_each (a ∷ chargers) m t ≡ for_each chargers m (m a t).1)
  unfolding for_each
  for_each-ok m a chargers t h = let b = bind-ok (m a) (λ _. for_each chargers m) t h in (b.1, b.2)

  for_each-CallsFrom :
      (calls : Bool → ℕ → List Effect) (m : ℕ → Exec (Service P C N K) Error (Unit {0}))
      → IsCall calls m
      → (s : Service P C N K) (chargers seen : List ℕ) (t : Service P C N K) → Unseen s seen t
      → (for_each chargers m t).0 ≡ ok tt
      → (es : List Effect) × ((for_each chargers m t).1.effects ≡ es ++ t.effects)
        × CallsFrom calls s seen chargers es
  for_each-CallsFrom calls m is s [] seen t k h = ([], unfold for_each in refl, refl)
  for_each-CallsFrom calls m is s (a ∷ chargers) seen t k h =
      let b = for_each-ok m a chargers t h in
      let step = is a t b.0 in
      let next = (m a t).1 in
      let now = calls (is_unpowered (charger_state t a)) a in
      let still : Unseen s (a ∷ seen) next = λ c. elim (Bool-cases (a == c)) [
        | inl e ↦ inl (rw e refl)
        | inr e ↦ elim (k c) [ inl q ↦ inl (rw (e, q) refl) | inr q ↦ inr (step.1 c e ∙ q) ]
      ] in
      let r =
        for_each-CallsFrom calls m is s chargers (a ∷ seen) next still
          (sym (ap (λ x. x.0) b.1) ∙ h) in
      (
        r.0 ++ now,
        ap (λ x. x.1.effects) b.1 ∙ r.1 ∙ rw (step.0, append_assoc r.0 now t.effects) refl,
        (
          is_unpowered (charger_state t a),
          r.0,
          refl,
          elim (k a) [ inl q ↦ inl q | inr q ↦ inr (ap is_unpowered q) ],
          r.2,
        ),
      )

  detach_charger-IsCall : IsCall detach_calls detach_charger
  unfolding detach_charger call_detach_handler
  detach_charger-IsCall a t h = elim (Bool-cases (is_unpowered (charger_state t a))) [
    | inl e ↦ rw e (refl, λ b n. refl)
    | inr e ↦ rw e (refl, λ b n. written t.charger_at a _ b n)
  ]

  -- A charger that is made ready, initialised and attached.
  woken_lem :
      (c : ConsumerPowerCapability) (a : ℕ) (t : Service P C N K)
      → let r = (call_is_ready a >> (call_init_charger a >> call_attach_handler a c)) t in
        r.0 ≡ ok tt
        → (r.1.effects ≡ charger_attach a c ∷ charger_init a ∷ charger_is_ready a ∷ t.effects)
          × ((b : ℕ) → (a == b) ≡ false → charger_state r.1 b ≡ charger_state t b)
  unfolding call_is_ready call_init_charger call_attach_handler
  woken_lem c a t h =
      let t1 = (call_is_ready a t).1 in
      let t2 = (call_init_charger a t1).1 in
      let last : Exec (Service P C N K) Error (Unit {0}) = call_attach_handler a c in
      let b1 = bind-ok (call_is_ready a) (λ _. call_init_charger a >> last) t h in
      let b2 = bind-ok (call_init_charger a) (λ _. last) t1 (ap (λ r. r.0) (sym b1.2) ∙ h) in
      let e = b1.2 ∙ b2.2 in
      (
        ap (λ r. r.1.effects) e,
        λ b n.
            ap (λ r. charger_state r.1 b) e
            ∙ written t2.charger_at a _ b n
            ∙ written t1.charger_at a _ b n
            ∙ written t.charger_at a _ b n,
      )

  attach_charger-IsCall :
      (c : ConsumerPowerCapability) → IsCall (λ u a. attach_calls u c a) (attach_charger c)
  unfolding attach_charger call_attach_handler
  attach_charger-IsCall c a t h = elim (Bool-cases (is_unpowered (charger_state t a))) [
    | inl e ↦ let k = rw (e, attach_charger) at h in rw e (woken_lem c a t k)
    | inr e ↦ rw e (refl, λ b n. written t.charger_at a _ b n)
  ]

  seen_none : (s t : Service P C N K) → t.charger_at ≡ s.charger_at → Unseen s [] t
  seen_none s t e = λ b. inr (ap (λ f. cd.state (f b)) e)

  -- A detach of all chargers that succeeds makes these calls, and an attach these.
  pub disconnect_chargers-Calls :
      (s t : Service P C N K)
      → t.charger_at ≡ s.charger_at
      → t.chargers ≡ s.chargers
      → (disconnect_chargers t).0 ≡ ok tt
      → (es : List Effect) × ((disconnect_chargers t).1.effects ≡ es ++ t.effects)
        × Calls detach_calls s es
  unfolding disconnect_chargers
  disconnect_chargers-Calls s t e l h =
      let r =
        for_each-CallsFrom detach_calls detach_charger detach_charger-IsCall s t.chargers [] t
          (seen_none s t e) h in
      (r.0, r.1, subst (λ v. CallsFrom detach_calls s [] v r.0) l r.2)

  pub attach_chargers-Calls :
      (c : ConsumerPowerCapability) (s t : Service P C N K)
      → t.charger_at ≡ s.charger_at
      → t.chargers ≡ s.chargers
      → (for_each t.chargers (attach_charger c) t).0 ≡ ok tt
      → (es : List Effect) × ((for_each t.chargers (attach_charger c) t).1.effects
          ≡ es ++ t.effects)
        × Calls (λ u a. attach_calls u c a) s es
  attach_chargers-Calls c s t e l h =
      let calls : Bool → ℕ → List Effect = λ u a. attach_calls u c a in
      let r =
        for_each-CallsFrom calls (attach_charger c) (attach_charger-IsCall c) s t.chargers [] t
          (seen_none s t e) h in
      (r.0, r.1, subst (λ v. CallsFrom calls s [] v r.0) l r.2)
