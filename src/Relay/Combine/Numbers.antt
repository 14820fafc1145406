-- ===== src/Relay/Combine/Numbers.antt =====
-- The identifiers that the host uses for a combined device.
use embedded_services.Base.{
  ℕ, suc, ◌≡◌, ◌↔◌, inl, inr, refl, ap, sym, ◌∙◌, subst, Bool, true, false, none, some, List, [],
  ◌∷◌, ◌++◌, Result, ok, err, ◌==◌, if◌then◌else◌, arith, Bool-cases, Option-cases, ok-injective,
  All, map,
}
use embedded_services.Relay.Item.{HidDescriptorError, is_report_id, is_collection, Yield, items}
use embedded_services.Relay.Descriptor.{HidReportDescriptor, new}
use embedded_services.Relay.IdMap.{ReportIdMapBuilder, find_index, route, host_id}
use embedded_services.Relay.IdMap.Table.{IsAt, Distinct, IsTableOf}
use embedded_services.Relay.IdMap.Routes.{IsAt-route, route-IsAt, IsAt-host_id, host_id-IsAt}
use embedded_services.Relay.Combine.{Combined, with_map, combine}
use embedded_services.Relay.Combine.Builder.{added, add_id}
use embedded_services.Relay.Combine.Reports.{first, declared_from, implicit_from, reports_of}
use embedded_services.Relay.Combine.Sequence.{IsParsed}
use embedded_services.Relay.Combine.Written.{combined_bytes}
use embedded_services.Relay.Combine.Whole.{combine_lem}

find_index-last :
    (x id : ℕ) (xs : List ℕ)
    → find_index x xs ≡ none
    → (id == x) ≡ false
    → find_index x (xs ++ (id ∷ [])) ≡ none
unfolding find_index
find_index-last x id [] e n = rw n refl
find_index-last x id (y ∷ ys) e n = elim (Bool-cases (y == x)) [
  | inl k ↦ absurd (ground (arith, e, k))
  | inr k ↦ elim (Option-cases (find_index x ys)) [
    | inl f ↦ rw (k, find_index-last x id ys f n) refl
    | inr (j, f) ↦ absurd (ground (arith, e, k, f))
  ]
]

Distinct-last :
    (id : ℕ) (xs : List ℕ) → Distinct xs → find_index id xs ≡ none → Distinct (xs ++ (id ∷ []))
unfolding find_index
Distinct-last id [] d e = (refl, tt)
Distinct-last id (x ∷ xs) d e = elim (Bool-cases (x == id)) [
  | inl k ↦ absurd (ground (arith, e, k))
  | inr k ↦
      let m : (id == x) ≡ false = ground (arith, k) in
      elim (Option-cases (find_index id xs)) [
        | inl f ↦ (find_index-last x id xs d.0 m, Distinct-last id xs d.1 f)
        | inr (j, f) ↦ absurd (ground (arith, e, k, f))
      ]
]

Distinct-added : (id : ℕ) (now : List ℕ) → Distinct now → Distinct (add_id now id)
Distinct-added id now d = elim (Option-cases (find_index id now)) [
  | inl e ↦ subst (λ o. Distinct (added id now o)) (sym e) (Distinct-last id now d e)
  | inr (k, e) ↦ subst (λ o. Distinct (added id now o)) (sym e) d
]

if-Distinct :
    (b : Bool) (xs ys : List ℕ) → Distinct xs → Distinct ys → Distinct (if b then xs else ys)
if-Distinct true xs ys d e = d
if-Distinct false xs ys d e = e

declared_from-Distinct :
    (now : List ℕ) (ys : List Yield) → Distinct now → Distinct (declared_from now ys)
declared_from-Distinct now [] d = d
declared_from-Distinct now (err e ∷ ys) d = d
declared_from-Distinct now (ok i ∷ ys) d =
    declared_from-Distinct (if is_report_id i.header then add_id now (first i.payload) else now) ys
      (if-Distinct (is_report_id i.header) _ _ (Distinct-added (first i.payload) now d) d)

implicit_from-Distinct : (ys : List Yield) → Distinct (implicit_from ys)
unfolding find_index
implicit_from-Distinct [] = tt
implicit_from-Distinct (err e ∷ ys) = tt
implicit_from-Distinct (ok i ∷ ys) =
    if-Distinct (is_collection i.header) (0 ∷ []) (implicit_from ys) (refl, tt)
      (implicit_from-Distinct ys)

reports_of-Distinct : (inputs : List HidReportDescriptor) → All Distinct (map reports_of inputs)
reports_of-Distinct [] = tt
reports_of-Distinct (input ∷ inputs) = (
  if-Distinct input.report_ids_implicit (implicit_from (items input.bytes))
      (declared_from [] (items input.bytes)) (implicit_from-Distinct (items input.bytes))
      (declared_from-Distinct [] (items input.bytes) tt),
  reports_of-Distinct inputs,
)

with_map_lem :
    (b : ReportIdMapBuilder) (r : Result HidReportDescriptor HidDescriptorError) (c : Combined)
    → with_map b r ≡ ok c
    → record { remaps = b.remaps; blocks = b.blocks } ≡ c.id_map
with_map_lem b (ok d) c h = ap (λ v. v.id_map) (ok-injective h)
with_map_lem b (err e) c h = absurd (ground (arith, h))

combined-IsTableOf :
    (inputs : List HidReportDescriptor) (capacity room : ℕ) (c : Combined)
    → All IsParsed inputs
    → combine capacity inputs room ≡ ok c
    → IsTableOf (map reports_of inputs) c.id_map
combined-IsTableOf inputs capacity room c p h = elim (combine_lem inputs capacity room p) [
  | inl (l, e) ↦ absurd (ground (arith, sym e ∙ h))
  | inr (l, inl (e, f)) ↦ absurd (ground (arith, sym e ∙ h))
  | inr (l, inr (b, t, e)) ↦
      let m = with_map_lem b (new (combined_bytes 0 inputs)) c (sym e ∙ h) in
      subst (IsTableOf (map reports_of inputs)) m t
]

-- A combined device routes the identifier `i + 1` of the host to the report at place `i`, where the reports
-- stand as their descriptors declare them, one descriptor behind the other, and routes nothing else.
pub route_iff :
    (inputs : List HidReportDescriptor) (capacity room : ℕ) (c : Combined) (owner native h : ℕ)
    → All IsParsed inputs
    → combine capacity inputs room ≡ ok c
    → (route c.id_map h ≡ some (owner, native))
      ↔ ((i : ℕ) × (h ≡ suc i) × IsAt (map reports_of inputs) owner native i)
route_iff inputs capacity room c owner native h p e =
    let t = combined-IsTableOf inputs capacity room c p e in
    let reports = map reports_of inputs in
    (
      λ k. route-IsAt reports c.id_map owner native h t k,
      λ k. rw (k.1) (IsAt-route reports c.id_map owner native k.0 t k.2),
    )

-- In a combined device the host's identifier of a device's report is routed to just that report, and an
-- identifier that is routed to a report is the host's identifier of it.
pub route-host_id :
    (inputs : List HidReportDescriptor) (capacity room : ℕ) (c : Combined) (owner native h : ℕ)
    → All IsParsed inputs
    → combine capacity inputs room ≡ ok c
    → (route c.id_map h ≡ some (owner, native)) ↔ (host_id c.id_map owner native ≡ some h)
route-host_id inputs capacity room c owner native h p e =
    let t = combined-IsTableOf inputs capacity room c p e in
    let reports = map reports_of inputs in
    let d = reports_of-Distinct inputs in
    (
      λ k.
          let a = route-IsAt reports c.id_map owner native h t k in
          rw (a.1) (IsAt-host_id reports c.id_map owner native a.0 t d a.2),
      λ k.
          let a = host_id-IsAt reports c.id_map owner native h t d k in
          rw (a.1) (IsAt-route reports c.id_map owner native a.0 t a.2),
    )
