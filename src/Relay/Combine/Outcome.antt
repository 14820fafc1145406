-- ===== src/Relay/Combine/Outcome.antt =====
-- Calls that fail only for lack of report identifiers.
use embedded_services.Base.{ℕ, ◌<◌, ◌≡◌, ◌⊎◌, inl, inr, refl, Result, ok, err}
use embedded_services.Base.Exec.{Exec, ◌>>=◌}
use embedded_services.Relay.Item.{HidDescriptorError, too_many_report_ids}

-- What a map can hold, and how many reports there are in all.
pub record Goal : Type 0 where
  pub capacity : ℕ
  pub total : ℕ

module _ (g : Goal) {S A : Type 0} where
  -- A result and a state that satisfy `P`, or more reports than the map or a u8 can number.
  abbrev pub Outcome : (A → S → Type 0) → Result A HidDescriptorError × S → Type 0
  Outcome P r =
      ((r.0 ≡ err too_many_report_ids) × ((g.capacity < g.total) ⊎ (255 < g.total)))
      ⊎ ((a : A) × (r.0 ≡ ok a) × P a r.1)

module _ (g : Goal) {S A B : Type 0} where
  pub bind-Outcome :
      (P : A → S → Type 0) (Q : B → S → Type 0) (m : Exec S HidDescriptorError A)
      (f : A → Exec S HidDescriptorError B) (s : S)
      → Outcome g P (m s)
      → ((a : A) (t : S) → P a t → Outcome g Q (f a t))
      → Outcome g Q ((m >>= f) s)
  bind-Outcome P Q m f s (inl (e, n)) k = inl (rw e refl, n)
  bind-Outcome P Q m f s (inr (a, e, p)) k = rw e (k a (m s).1 p)

pub Outcome-map :
    (g : Goal) {A S : Type 0} (P Q : A → S → Type 0) (r : Result A HidDescriptorError × S)
    → ((a : A) (s : S) → P a s → Q a s)
    → Outcome g P r
    → Outcome g Q r
Outcome-map g P Q r f (inl e) = inl e
Outcome-map g P Q r f (inr (a, e, p)) = inr (a, e, f a r.1 p)
