-- ===== src/Relay/Descriptor/Implicit.antt =====
-- A descriptor that is read without an error consists of whole items, and is implicit only if none of them
-- is a report identifier.
use embedded_services.Base.{
  ℕ, ◌/◌, ◌%◌, ◌≡◌, refl, ap, sym, ◌∙◌, Bool, true, false, ◌&&◌, List, [], ◌∷◌, Result, ok, err,
  length, arith, leb, ltb, ◌==◌, if◌then◌else◌, inl, inr, Bool-cases, Result-cases, ==_iff,
  ok-injective, subst,
}
use embedded_services.Base.Exec.{proceed, for_each}
use embedded_services.Relay.Item.{
  HidDescriptorError, HidItemType, main, global, local, reserved, item_type, item_tag, is_long_item,
  is_global, type_of_bits, is_report_id, DescriptorItem, Yield, items,
}
use embedded_services.Relay.Descriptor.{
  Parser, Step, parser, set_report_size, set_report_count, set_report_id, push_state, pop_state,
  popped, global_item, main_item, item_of_type, on_item, on_yield, described, new,
  value_or_truncated, try_value_as_int, HidReportDescriptor,
}

-- Whole items, whose report identifiers are single bytes, and are not there in an implicit descriptor.
abbrev pub IsReadable : Bool → List Yield → Type 0
IsReadable implicit [] = Unit
IsReadable implicit (ok i ∷ ys) =
    (is_report_id i.header ≡ true → (implicit ≡ false) × (length i.payload ≡ 1))
    × IsReadable implicit ys
IsReadable implicit (err e ∷ ys) = ⊥

abbrev Keeps : Step → Type 0
Keeps m = (p : Parser) → p.report_ids_implicit ≡ false → (m p).1.report_ids_implicit ≡ false

lifted-Keeps :
    (r : Result ℕ HidDescriptorError) (f : ℕ → Step)
    → ((n : ℕ) → Keeps (f n))
    → (p : Parser) → p.report_ids_implicit ≡ false
    → (proceed r f p).1.report_ids_implicit ≡ false
lifted-Keeps (ok n) f k p h = k n p h
lifted-Keeps (err e) f k p h = h

set_report_size-Keeps : (payload : List ℕ) → Keeps (set_report_size payload)
unfolding set_report_size
set_report_size-Keeps payload p h =
    lifted-Keeps (value_or_truncated (try_value_as_int payload)) _ (λ n q k. k) p h

set_report_count-Keeps : (payload : List ℕ) → Keeps (set_report_count payload)
unfolding set_report_count
set_report_count-Keeps payload p h =
    lifted-Keeps (value_or_truncated (try_value_as_int payload)) _ (λ n q k. k) p h

set_report_id-Keeps : (payload : List ℕ) → Keeps (set_report_id payload)
unfolding set_report_id
set_report_id-Keeps [] p h = h
set_report_id-Keeps (id ∷ []) p h = refl
set_report_id-Keeps (id ∷ b ∷ bs) p h = h

push_state-Keeps : Keeps push_state
unfolding push_state
push_state-Keeps p h = elim (Bool-cases (leb 16 (length p.stack))) [
  | inl e ↦ rw e h
  | inr e ↦ rw e h
]

popped-Keeps :
    (p : Parser) (ss : List _)
    → p.report_ids_implicit ≡ false
    → (popped ss p).1.report_ids_implicit ≡ false
popped-Keeps p [] h = h
popped-Keeps p (s ∷ ss) h = h

pop_state-Keeps : Keeps pop_state
unfolding pop_state
pop_state-Keeps p h = popped-Keeps p p.stack h

if-Keeps : (b : Bool) (m n : Step) → Keeps m → Keeps n → Keeps (if b then m else n)
if-Keeps true m n k l = k
if-Keeps false m n k l = l

global_item-Keeps : (tag : ℕ) (payload : List ℕ) → Keeps (global_item tag payload)
unfolding global_item
global_item-Keeps tag payload = if-Keeps (tag == 7) _ _ (set_report_size-Keeps payload) (
    if-Keeps (tag == 9) _ _ (set_report_count-Keeps payload) (
      if-Keeps (tag == 8) _ _ (set_report_id-Keeps payload) (
        if-Keeps (tag == 10) _ _ push_state-Keeps
          (if-Keeps (tag == 11) _ _ pop_state-Keeps (λ p h. h)))))

main_item-Keeps : (tag : ℕ) → Keeps (main_item tag)
unfolding main_item
main_item-Keeps tag p h = elim (Bool-cases (ltb p.state.report_id 256)) [
  | inl e ↦ rw e h
  | inr e ↦ rw e h
]

item_of_type-Keeps :
    (t : HidItemType) (tag : ℕ) (payload : List ℕ) → Keeps (item_of_type t tag payload)
item_of_type-Keeps main tag payload = main_item-Keeps tag
item_of_type-Keeps global tag payload = global_item-Keeps tag payload
item_of_type-Keeps local tag payload = λ p h. h
item_of_type-Keeps reserved tag payload = λ p h. h

on_item-Keeps : (i : DescriptorItem) → Keeps (on_item i)
unfolding on_item
on_item-Keeps i =
    if-Keeps (is_long_item i.header) _ _ (λ p h. h)
      (item_of_type-Keeps (item_type i.header) (item_tag i.header) i.payload)

both_true : (a b : Bool) → (a && b) ≡ true → (a ≡ true) × (b ≡ true)
both_true true b h = (refl, h)
both_true false b h = absurd (ground arith)

global_bits : (b : ℕ) → is_global (type_of_bits b) ≡ true → b ≡ 1
global_bits b h = elim (Bool-cases (b == 0)) [
  | inl e ↦ absurd (ground (arith, h, e))
  | inr e ↦ elim (Bool-cases (b == 1)) [
    | inl f ↦ (==_iff b 1).0 f
    | inr f ↦ elim (Bool-cases (b == 2)) [
      | inl g ↦ absurd (ground (arith, h, e, f, g))
      | inr g ↦ absurd (ground (arith, h, e, f, g))
    ]
  ]
]

-- The header of a report identifier.
report_id_lem :
    (h : ℕ)
    → is_report_id h ≡ true
    → (is_long_item h ≡ false) × (item_type h ≡ global) × (item_tag h ≡ 8)
unfolding is_report_id is_long_item item_type item_tag
report_id_lem h e =
    let k = both_true (is_global (type_of_bits (h / 4 % 4))) (h / 16 == 8) e in
    let b = global_bits (h / 4 % 4) k.0 in
    let t = (==_iff (h / 16) 8).0 k.1 in (ground (arith, b), ap type_of_bits b, t)

set_report_id-read :
    (payload : List ℕ) (p : Parser)
    → (set_report_id payload p).0 ≡ ok tt
    → ((set_report_id payload p).1.report_ids_implicit ≡ false) × (length payload ≡ 1)
unfolding set_report_id
set_report_id-read [] p h = absurd (ground (arith, h))
set_report_id-read (id ∷ []) p h = (refl, refl)
set_report_id-read (id ∷ b ∷ bs) p h = absurd (ground (arith, h))

on_item-read :
    (i : DescriptorItem) (p : Parser)
    → is_report_id i.header ≡ true
    → (on_item i p).0 ≡ ok tt
    → ((on_item i p).1.report_ids_implicit ≡ false) × (length i.payload ≡ 1)
unfolding on_item global_item
on_item-read i p e h =
    let k = report_id_lem i.header e in
    let s : on_item i p ≡ set_report_id i.payload p = rw (k.0, k.1, k.2) refl in
    let r = set_report_id-read i.payload p (sym (ap (λ x. x.0) s) ∙ h) in
    (ap (λ x. x.1.report_ids_implicit) s ∙ r.0, r.1)

-- A loop that ends without an error has read every item.
for_each-IsReadable :
    (ys : List Yield) (p : Parser)
    → (for_each ys on_yield p).0 ≡ ok tt
    → IsReadable (for_each ys on_yield p).1.report_ids_implicit ys
      × (p.report_ids_implicit ≡ false → (for_each ys on_yield p).1.report_ids_implicit ≡ false)
unfolding for_each on_yield
for_each-IsReadable [] p h = (tt, λ k. k)
for_each-IsReadable (err e ∷ ys) p h = absurd (ground (arith, h))
for_each-IsReadable (ok i ∷ ys) p h = elim (Result-cases (on_item i p).0) [
  | inl (u, e) ↦
      let s : for_each (ok i ∷ ys) on_yield p ≡ for_each ys on_yield (on_item i p).1 = rw e refl in
      let r = for_each-IsReadable ys (on_item i p).1 (sym (ap (λ x. x.0) s) ∙ h) in
      subst
        (λ x.
          IsReadable x.1.report_ids_implicit (ok i ∷ ys)
          × (p.report_ids_implicit ≡ false → x.1.report_ids_implicit ≡ false))
        (sym s)
        ((λ k. let q = on_item-read i p k e in (r.1 q.0, q.1), r.0), λ k. r.1 (on_item-Keeps i p k))
  | inr (x, e) ↦ absurd (ground (arith, h, e))
]

described_lem :
    (bytes : List ℕ) (r : Result (Unit {0}) HidDescriptorError × Parser) (d : HidReportDescriptor)
    → described bytes r ≡ ok d
    → (r.0 ≡ ok tt) × (d.bytes ≡ bytes) × (d.report_ids_implicit ≡ r.1.report_ids_implicit)
described_lem bytes (ok u, p) d h =
    let e = ok-injective h in
    (refl, sym (ap (λ x. x.bytes) e), sym (ap (λ x. x.report_ids_implicit) e))
described_lem bytes (err x, p) d h = absurd (ground (arith, h))

-- A descriptor that is accepted keeps its bytes, and its items are readable.
pub new-IsReadable :
    (bytes : List ℕ) (d : HidReportDescriptor)
    → new bytes ≡ ok d
    → (d.bytes ≡ bytes) × IsReadable d.report_ids_implicit (items bytes)
unfolding new
new-IsReadable bytes d h =
    let r = for_each (items bytes) on_yield parser in
    let k = described_lem bytes r d h in
    let l = for_each-IsReadable (items bytes) parser k.0 in
    (k.1, subst (λ b. IsReadable b (items bytes)) (sym k.2) l.0)
