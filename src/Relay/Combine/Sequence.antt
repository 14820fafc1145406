-- ===== src/Relay/Combine/Sequence.antt =====
-- The inputs one after the other.
use embedded_services.Base.{
  ℕ, ◌+◌, ◌*◌, ◌≤◌, ◌≡◌, inr, refl, ap, sym, ◌∙◌, subst, Bool, true, false, List, [], ◌∷◌, ◌++◌, ok,
  length, length-append, if◌then◌else◌, arith, All, map,
}
use embedded_services.Base.Exec.{◌>>=◌, modify, for_each}
use embedded_services.Mctp.Encoding.Roundtrip.{append_assoc, append_nil}
use embedded_services.Relay.Item.{global_header, Yield, items}
use embedded_services.Relay.Item.Partition.{IsPartition, items-IsPartition}
use embedded_services.Relay.Descriptor.{HidReportDescriptor, new}
use embedded_services.Relay.Descriptor.Implicit.{IsReadable, new-IsReadable}
use embedded_services.Relay.IdMap.{begin_input}
use embedded_services.Relay.IdMap.Table.{concat}
use embedded_services.Relay.Combine.{
  Combiner, Combine, push_byte, on_builder, push_header, pop_header, combine_yield, combine_input,
  combine_inputs, sum_len,
}
use embedded_services.Relay.Combine.Outcome.{Goal, Outcome, bind-Outcome, Outcome-map}
use embedded_services.Relay.Combine.Builder.{IsBetween, begin_input-Outcome, built-IsBetween}
use embedded_services.Relay.Combine.Reports.{
  Has, declared_from, implicit_from, reports_of, Current, snoc_append, push_slice-Outcome,
  on_builder-Outcome,
}
use embedded_services.Relay.Combine.Inputs.{Had, Has-fewer, explicit-Outcome, implicit-Outcome}
use embedded_services.Relay.Combine.Written.{written_body, written_input, combined_bytes}

-- A descriptor as `HidReportDescriptor::new` makes it.
abbrev pub IsParsed : HidReportDescriptor → Type 0
IsParsed d = new d.bytes ≡ ok d

module _ (g : Goal) (done : List (List ℕ)) (more : List ℕ) where
  loop-Outcome :
      (implicit : Bool) (ys : List Yield) (rest w v : List ℕ) (b : ℕ) (s : Combiner)
      → IsPartition rest ys
      → IsReadable implicit ys
      → length (concat done) + length (if implicit then implicit_from ys else declared_from [] ys)
        ≤ g.total
      → Has (Current g done more []) w (length rest + (2 + b)) false s
      → v ≡ w ++ written_body implicit (length (concat done)) ys
      → Outcome g
          (λ u t.
            Had
              (Current g done more (if implicit then implicit_from ys else declared_from [] ys))
              v
              b
              t)
          (for_each ys (combine_yield implicit) s)
  loop-Outcome true ys rest w v b s p r t h q =
      implicit-Outcome g done more ys rest w v b s p r t h q
  loop-Outcome false ys rest w v b s p r t h q =
      Outcome-map g (λ u t. Has (Current g done more (declared_from [] ys)) v b false t)
        (λ u t. Had (Current g done more (declared_from [] ys)) v b t)
        (for_each ys (combine_yield false) s) (λ u t k. (k.0, k.1))
        (explicit-Outcome g done more ys rest [] w v b false s p r t
          (Has-fewer (Current g done more []) w (length rest + b) (length rest + (2 + b)) false s
            (omega arith) h)
          q)

  input-Outcome :
      (input : HidReportDescriptor) (start b : ℕ) (w v : List ℕ) (s : Combiner)
      → IsParsed input
      → length (concat done) + length (reports_of input) ≤ g.total
      → Had (IsBetween g done (start ∷ more)) w (length input.bytes + (4 + b)) s
      → v ≡ w ++ written_input (length (concat done)) input
      → Outcome g
          (λ u t. Had (IsBetween g (done ++ (reports_of input ∷ [])) more) v b t)
          (combine_input (length done) input s)
  unfolding combine_input global_header
  input-Outcome input start b w v s p m h q =
      let K = Current g done more [] in
      let l = length input.bytes in
      let f = s.report_id_inserted in
      let body : Combine (Unit {0}) =
        for_each (items input.bytes) (combine_yield input.report_ids_implicit) in
      let reset : Combine (Unit {0}) = modify λ c. record c { report_id_inserted = false } in
      let P : Unit {0} → Combiner → Type 0 =
        λ u t. Had (IsBetween g (done ++ (reports_of input ∷ [])) more) v b t in
      let R = Current g done more (reports_of input) in
      let w1 = w ++ (push_header ∷ []) in
      let x = written_body input.report_ids_implicit (length (concat done)) (items input.bytes) in
      let e : v ≡ (w1 ++ x) ++ (pop_header ∷ []) =
        q
        ∙ sym (snoc_append w push_header (x ++ (pop_header ∷ [])))
        ∙ sym (append_assoc w1 x (pop_header ∷ [])) in
      bind-Outcome g (λ u t. Has K w (l + (4 + b)) f t) P (on_builder (begin_input (length done)))
        (λ _. push_byte push_header >>= λ _. reset >>= λ _. body >>= λ _. push_byte pop_header) s
        (on_builder-Outcome g (IsBetween g done (start ∷ more)) (λ _. K) (begin_input (length done))
          w (l + (4 + b)) f s (h.0, h.1, refl)
          (begin_input-Outcome g done more start s.builder h.0))
        (λ u t k.
          bind-Outcome g (λ u y. Has K w1 (l + (3 + b)) f y) P (push_byte push_header)
            (λ _. reset >>= λ _. body >>= λ _. push_byte pop_header) t
            (push_slice-Outcome g K f (push_header ∷ []) w w1 (l + (3 + b)) (l + (4 + b)) t k
              (omega arith) refl)
            (λ u y c.
              bind-Outcome g (λ u z. Had R (w1 ++ x) (1 + b) z) P body (λ _. push_byte pop_header)
                (record y { report_id_inserted = false })
                (loop-Outcome input.report_ids_implicit (items input.bytes) input.bytes w1 (w1 ++ x)
                  (1 + b) (record y { report_id_inserted = false }) (items-IsPartition input.bytes)
                  (new-IsReadable input.bytes input p).1 m
                  (c.0, (c.1.0, omega (arith, c.1.1)), refl) refl)
                (λ u z d.
                  Outcome-map g (λ u n. Has R v b z.report_id_inserted n) P _
                    (λ u n o. (built-IsBetween g done more (reports_of input) n.builder o.0, o.1))
                    (push_slice-Outcome g R z.report_id_inserted (pop_header ∷ []) (w1 ++ x) v b
                      (1 + b) z (d.0, d.1, refl) refl e))))

no_more : (done : List (List ℕ)) → done ++ [] ≡ done
no_more [] = refl
no_more (r ∷ rs) = ap (λ l. r ∷ l) (no_more rs)

concat_append : (xs ys : List (List ℕ)) → concat (xs ++ ys) ≡ concat xs ++ concat ys
concat_append [] ys = refl
concat_append (x ∷ xs) ys = rw (concat_append xs ys, append_assoc x (concat xs) (concat ys)) refl

length-next :
    (done : List (List ℕ)) (now : List ℕ)
    → length (concat done) + length now ≡ length (concat (done ++ (now ∷ [])))
length-next done now =
    let e = ap length (concat_append done (now ∷ [])) in
    omega (arith, e, length-append (concat done) (now ++ []), length-append now [])

pub inputs-Outcome :
    (g : Goal) (inputs : List HidReportDescriptor) (done : List (List ℕ)) (more : List ℕ) (b : ℕ)
    (w v : List ℕ) (s : Combiner)
    → All IsParsed inputs
    → length more ≡ length inputs
    → length (concat (done ++ map reports_of inputs)) ≤ g.total
    → Had (IsBetween g done more) w (sum_len inputs + length inputs * 4 + b) s
    → v ≡ w ++ combined_bytes (length (concat done)) inputs
    → Outcome g
        (λ u t. Had (IsBetween g (done ++ map reports_of inputs) []) v b t)
        (combine_inputs (length done) inputs s)
unfolding combine_inputs
inputs-Outcome g [] done [] b w v s p e m h o = inr (
  tt,
  refl,
  (
    subst (λ d. IsBetween g d [] s.builder) (sym (no_more done)) h.0,
    (h.1.0 ∙ sym (o ∙ append_nil w), omega (arith, h.1.1)),
  ),
)
inputs-Outcome g [] done (x ∷ more) b w v s p e m h o = absurd (omega (arith, e))
inputs-Outcome g (input ∷ inputs) done [] b w v s p e m h o = absurd (omega (arith, e))
inputs-Outcome g (input ∷ inputs) done (x ∷ more) b w v s p e m h o =
    let c = sum_len inputs + length inputs * 4 + b in
    let next = done ++ (reports_of input ∷ []) in
    let n : length done + 1 ≡ length next = sym (length-append done (reports_of input ∷ [])) in
    let l2 =
      subst (λ d. length (concat d) ≤ g.total)
        (sym (snoc_append done (reports_of input) (map reports_of inputs))) m in
    let q1 = concat_append done (reports_of input ∷ map reports_of inputs) in
    let q2 = length-append (concat done) (reports_of input ++ concat (map reports_of inputs)) in
    let q3 = length-append (reports_of input) (concat (map reports_of inputs)) in
    let l1 : length (concat done) + length (reports_of input) ≤ g.total =
      omega (arith, m, ap length q1, q2, q3) in
    let y = written_input (length (concat done)) input in
    let o1 =
      o
      ∙ ap (λ k. w ++ (y ++ combined_bytes k inputs)) (length-next done (reports_of input))
      ∙ sym (append_assoc w y (combined_bytes (length (concat next)) inputs)) in
    let P : Unit {0} → Combiner → Type 0 =
      λ u t. Had (IsBetween g (done ++ (reports_of input ∷ map reports_of inputs)) []) v b t in
    bind-Outcome g (λ u t. Had (IsBetween g next more) (w ++ y) c t) P
      (combine_input (length done) input) (λ _. combine_inputs (length done + 1) inputs) s
      (input-Outcome g done more input x c w (w ++ y) s p.0 l1 (h.0, (h.1.0, omega (arith, h.1.1)))
        refl)
      (λ u t q.
        let r = inputs-Outcome g inputs next more b (w ++ y) v t p.1 (omega (arith, e)) l2 q o1 in
        subst (λ k. Outcome g P (combine_inputs k inputs t)) (sym n)
          (subst
            (λ d.
              Outcome g (λ u t. Had (IsBetween g d []) v b t)
                (combine_inputs (length next) inputs t))
            (snoc_append done (reports_of input) (map reports_of inputs)) r))
