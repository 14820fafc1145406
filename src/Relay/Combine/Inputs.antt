-- ===== src/Relay/Combine/Inputs.antt =====
-- The loops over the items of an input and over the inputs.
use embedded_services.Base.{
  Option, none, some, ℕ, suc, ◌+◌, ◌≤◌, ◌<◌, ◌≡◌, inl, inr, refl, ap, sym, ◌∙◌, subst, Bool, true,
  false, List, [], ◌∷◌, ◌++◌, ok, err, length, length-append, if◌then◌else◌, arith, Bool-cases,
}
use embedded_services.Base.Exec.{◌>>◌, for_each}
use embedded_services.Mctp.Encoding.Roundtrip.{append_assoc, append_nil}
use embedded_services.Relay.Item.{global_header, is_report_id, is_collection, DescriptorItem, Yield}
use embedded_services.Relay.Item.Partition.{IsItem, IsPartition}
use embedded_services.Relay.Descriptor.Implicit.{IsReadable}
use embedded_services.Relay.IdMap.{ReportIdMapBuilder}
use embedded_services.Relay.Combine.{
  Combiner, push_slice, rewrite_id, insert_where_due, combine_item, combine_yield,
}
use embedded_services.Relay.IdMap.{find_index}
use embedded_services.Relay.IdMap.Table.{concat}
use embedded_services.Relay.Combine.Outcome.{Goal, Outcome, bind-Outcome, Outcome-map}
use embedded_services.Relay.Combine.Builder.{add_id, added}
use embedded_services.Relay.Combine.Reports.{
  Space, Has, first, declared_from, implicit_from, Current, number, rewrite_id-Outcome,
  copy-Outcome, copy_insert-Outcome,
}
use embedded_services.Relay.Combine.Written.{
  written_item, written_explicit, written_raw, written_implicit,
}

-- The same without the flag.
abbrev pub Had : (ReportIdMapBuilder → Type 0) → List ℕ → ℕ → Combiner → Type 0
Had K w b s = K s.builder × Space w b s

pub Has-fewer :
    (K : ReportIdMapBuilder → Type 0) (w : List ℕ) (b c : ℕ) (f : Bool) (s : Combiner)
    → b ≤ c
    → Has K w c f s
    → Has K w b f s
Has-fewer K w b c f s l h = (h.0, (h.1.0, omega (arith, l, h.1.1)), h.2)

single : (bs : List ℕ) → length bs ≡ 1 → bs ≡ first bs ∷ []
single [] e = absurd (omega (arith, e))
single (b ∷ []) e = refl
single (b ∷ c ∷ bs) e = absurd (omega (arith, e))

length-cut :
    (raw more rest : List ℕ) (b : ℕ)
    → rest ≡ raw ++ more
    → length rest + b ≡ length raw + (length more + b)
length-cut raw more rest b e =
    let n = length-append raw more in let m = ap length e in omega (arith, n, m)

-- The list of identifiers grows.
added-grows : (id : ℕ) (now : List ℕ) (o : Option ℕ) → length now ≤ length (added id now o)
added-grows id now (some k) = omega arith
added-grows id now none = omega (arith, length-append now (id ∷ []))

if_grows :
    (b : Bool) (now next : List ℕ)
    → length now ≤ length next
    → length now ≤ length (if b then next else now)
if_grows true now next h = h
if_grows false now next h = omega arith

declared_from-grows : (now : List ℕ) (ys : List Yield) → length now ≤ length (declared_from now ys)
declared_from-grows now [] = omega arith
declared_from-grows now (err e ∷ ys) = omega arith
declared_from-grows now (ok i ∷ ys) =
    let next = add_id now (first i.payload) in
    let a = added-grows (first i.payload) now (find_index (first i.payload) now) in
    let b = if_grows (is_report_id i.header) now next a in
    omega (arith, b, declared_from-grows (if is_report_id i.header then next else now) ys)

module _ (g : Goal) (done : List (List ℕ)) (more : List ℕ) where
  abbrev Loop : List ℕ → List ℕ → ℕ → Bool → Combiner → Type 0
  Loop now w b f t = Has (Current g done more now) w b f t

  explicit_item-Outcome :
      (i : DescriptorItem) (now w : List ℕ) (b : ℕ) (f : Bool) (s : Combiner)
      → IsItem i
      → (is_report_id i.header ≡ true → length i.payload ≡ 1)
      → length (concat done)
          + length (if is_report_id i.header then add_id now (first i.payload) else now)
        ≤ g.total
      → Loop now w (length i.raw + b) f s
      → Outcome g
          (λ u t.
            Loop
              (if is_report_id i.header then add_id now (first i.payload) else now)
              (w ++ written_item (length (concat done)) now i)
              b
              f
              t)
          (combine_item false i s)
  unfolding combine_item
  explicit_item-Outcome i now w b f s x one t h = elim (Bool-cases (is_report_id i.header)) [
    | inl e ↦
        let n = one e in
        let t' =
          subst
            (λ v.
              length (concat done) + length (if v then add_id now (first i.payload) else now)
              ≤ g.total)
            e t in
        let l : length i.raw ≡ suc (length x.0 + 1) =
          ap length (x.1) ∙ ap suc (length-append x.0 i.payload ∙ ap (λ k. length x.0 + k) n) in
        let k =
          Has-fewer (Current g done more now) w (2 + b) (length i.raw + b) f s (omega (arith, l))
            h in
        let c = i.header ∷ number g done more (first i.payload) now ∷ [] in
        let r =
          rewrite_id-Outcome g done more i.header (first i.payload) now w (w ++ c) b f s t' k
            refl in
        rw e (
          subst
            (λ v.
              Outcome g (λ u t. Loop (add_id now (first i.payload)) (w ++ c) b f t)
                (rewrite_id i.header v s))
            (sym (single i.payload n)) r)
    | inr e ↦ rw e (copy-Outcome g done more false i.header i.raw now w b f s refl h)
  ]

  pub explicit-Outcome :
      (ys : List Yield) (rest now w v : List ℕ) (b : ℕ) (f : Bool) (s : Combiner)
      → IsPartition rest ys
      → IsReadable false ys
      → length (concat done) + length (declared_from now ys) ≤ g.total
      → Loop now w (length rest + b) f s
      → v ≡ w ++ written_explicit (length (concat done)) now ys
      → Outcome g (λ u t. Loop (declared_from now ys) v b f t) (for_each ys (combine_yield false) s)
  unfolding for_each combine_yield
  explicit-Outcome [] rest now w v b f s p r t h q =
      let k = Has-fewer (Current g done more now) w b (length rest + b) f s (omega arith) h in
      inr (tt, refl, subst (λ z. Loop now z b f s) (sym (q ∙ append_nil w)) k)
  explicit-Outcome (err e ∷ ys) rest now w v b f s p r t h q = absurd r
  explicit-Outcome (ok i ∷ ys) rest now w v b f s p r t h q =
      let before = length (concat done) in
      let x = written_item before now i in
      let next = if is_report_id i.header then add_id now (first i.payload) else now in
      let c = length p.1.0 + b in
      let e = length-cut i.raw p.1.0 rest b p.1.1 in
      bind-Outcome g (λ u t. Loop next (w ++ x) c f t) (λ u t. Loop (declared_from next ys) v b f t)
        (combine_item false i) (λ _. for_each ys (combine_yield false)) s
        (explicit_item-Outcome i now w c f s p.0 (λ k. (r.0 k).1)
          (omega (arith, t, declared_from-grows next ys)) (subst (λ z. Loop now w z f s) e h))
        (λ u y k.
          explicit-Outcome ys p.1.0 next (w ++ x) v b f y p.1.2 r.1 t k
            (q ∙ sym (append_assoc w x (written_explicit before next ys))))

  -- No item of an implicit descriptor is a report identifier.
  no_id :
      (h : ℕ) (T : Type 0)
      → (is_report_id h ≡ true → (Path Bool true false) × T)
      → is_report_id h ≡ false
  no_id h T k = elim (Bool-cases (is_report_id h)) [
    | inl e ↦ absurd (ground (arith, (k e).0))
    | inr e ↦ e
  ]

  inserted-Outcome :
      (ys : List Yield) (rest now w v : List ℕ) (b : ℕ) (s : Combiner)
      → IsPartition rest ys
      → IsReadable true ys
      → Loop now w (length rest + b) true s
      → v ≡ w ++ written_raw ys
      → Outcome g (λ u t. Loop now v b true t) (for_each ys (combine_yield true) s)
  unfolding for_each combine_yield combine_item
  inserted-Outcome [] rest now w v b s p r h q =
      let k = Has-fewer (Current g done more now) w b (length rest + b) true s (omega arith) h in
      inr (tt, refl, subst (λ z. Loop now z b true s) (sym (q ∙ append_nil w)) k)
  inserted-Outcome (err e ∷ ys) rest now w v b s p r h q = absurd r
  inserted-Outcome (ok i ∷ ys) rest now w v b s p r h q =
      let c = length p.1.0 + b in
      let e = length-cut i.raw p.1.0 rest b p.1.1 in
      let n = no_id i.header (length i.payload ≡ 1) r.0 in
      bind-Outcome g (λ u t. Loop now (w ++ i.raw) c true t) (λ u t. Loop now v b true t)
        (combine_item true i) (λ _. for_each ys (combine_yield true)) s
        (rw n (
          copy-Outcome g done more true i.header i.raw now w c true s refl
            (subst (λ z. Loop now w z true s) e h)))
        (λ u t k.
          inserted-Outcome ys p.1.0 now (w ++ i.raw) v b t p.1.2 r.1 k
            (q ∙ sym (append_assoc w i.raw (written_raw ys))))

  pub implicit-Outcome :
      (ys : List Yield) (rest w v : List ℕ) (b : ℕ) (s : Combiner)
      → IsPartition rest ys
      → IsReadable true ys
      → length (concat done) + length (implicit_from ys) ≤ g.total
      → Loop [] w (length rest + (2 + b)) false s
      → v ≡ w ++ written_implicit (length (concat done)) ys
      → Outcome g
          (λ u t. Had (Current g done more (implicit_from ys)) v b t)
          (for_each ys (combine_yield true) s)
  unfolding for_each combine_yield combine_item global_header
  implicit-Outcome [] rest w v b s p r t h q =
      inr (tt, refl, (h.0, (h.1.0 ∙ sym (q ∙ append_nil w), omega (arith, h.1.1))))
  implicit-Outcome (err e ∷ ys) rest w v b s p r t h q = absurd r
  implicit-Outcome (ok i ∷ ys) rest w v b s p r t h o =
      let before = length (concat done) in
      let n = no_id i.header (length i.payload ≡ 1) r.0 in
      let e = length-cut i.raw p.1.0 rest (2 + b) p.1.1 in
      let k = subst (λ z. Loop [] w z false s) e h in
      elim (Bool-cases (is_collection i.header)) [
        | inl q ↦
            let c = length p.1.0 + b in
            let f1 = ap (λ v. length (if v then 0 ∷ [] else implicit_from ys)) q in
            let t1 : length (concat done) + 0 < g.total = omega (arith, t, f1) in
            let k2 =
              Has-fewer (Current g done more []) w (length i.raw + (2 + c))
                (length i.raw + (length p.1.0 + (2 + b))) false s (omega arith) k in
            let a = 133 ∷ (before + 1) ∷ [] in
            let x = (w ++ i.raw) ++ a in
            let o1 =
              o
              ∙ ap
                  (λ z.
                    w
                    ++ (i.raw
                        ++ (if z
                            then 133 ∷ (before + 1) ∷ written_raw ys
                            else written_implicit before ys)))
                  q
              ∙ sym (append_assoc w i.raw (a ++ written_raw ys))
              ∙ sym (append_assoc (w ++ i.raw) a (written_raw ys)) in
            rw (n, q)
              (bind-Outcome g (λ u t. Loop (0 ∷ []) x c true t)
                (λ u t. Had (Current g done more (0 ∷ [])) v b t)
                (push_slice i.raw >> insert_where_due true i.header)
                (λ _. for_each ys (combine_yield true)) s
                (copy_insert-Outcome g done more i.header i.raw [] w x c s q t1 k2
                  (ap (λ z. (w ++ i.raw) ++ (133 ∷ z ∷ [])) (omega arith)))
                (λ u y z.
                  Outcome-map g (λ _ m. Loop (0 ∷ []) v b true m)
                    (λ _ m. Had (Current g done more (0 ∷ [])) v b m) _ (λ _ m l. (l.0, l.1))
                    (inserted-Outcome ys p.1.0 (0 ∷ []) x v b y p.1.2 r.1 z o1)))
        | inr q ↦
            let t2 =
              subst
                (λ v.
                  length (concat done) + length (if v then 0 ∷ [] else implicit_from ys) ≤ g.total)
                q t in
            let o2 =
              o
              ∙ ap
                  (λ z.
                    w
                    ++ (i.raw
                        ++ (if z
                            then 133 ∷ (before + 1) ∷ written_raw ys
                            else written_implicit before ys)))
                  q
              ∙ sym (append_assoc w i.raw (written_implicit before ys)) in
            rw (n, q)
              (bind-Outcome g (λ u t. Loop [] (w ++ i.raw) (length p.1.0 + (2 + b)) false t)
                (λ u t. Had (Current g done more (implicit_from ys)) v b t)
                (push_slice i.raw >> insert_where_due true i.header)
                (λ _. for_each ys (combine_yield true)) s
                (copy-Outcome g done more true i.header i.raw [] w (length p.1.0 + (2 + b)) false s
                  q k)
                (λ u y z. implicit-Outcome ys p.1.0 (w ++ i.raw) v b y p.1.2 r.1 t2 z o2))
      ]
