-- ===== src/Relay/Combine/Reports.antt =====
-- The loops of the combination: what they put into the builder, and how many bytes they write.
use embedded_services.Base.{
  ℕ, ◌+◌, ◌≤◌, ◌<◌, ◌≡◌, inl, inr, refl, ap, sym, ◌∙◌, Bool, true, false, ◌&&◌, not, List, [], ◌∷◌,
  ◌++◌, ok, err, length, length-append, ltb, if◌then◌else◌, arith,
}
use embedded_services.Base.Exec.{◌>>◌, modify}
use embedded_services.Relay.Item.{is_report_id, is_collection, Yield, items}
use embedded_services.Relay.Descriptor.{HidReportDescriptor}
use embedded_services.Relay.IdMap.{ReportIdMapBuilder, Building, assign, record_id}
use embedded_services.Relay.Combine.{
  Combiner, Combine, push_slice, push_byte, on_builder, report_id_header, rewrite_id, insert_id,
  insert_where_due,
}
use embedded_services.Relay.IdMap.Table.{concat}
use embedded_services.Relay.Combine.Outcome.{Goal, Outcome, bind-Outcome}
use embedded_services.Relay.Combine.Builder.{
  IsBuilt, Numbered, position, add_id, record_id-Outcome, assign-Outcome,
}

-- What has been written, and a number of bytes for which there is room.
abbrev pub Space : List ℕ → ℕ → Combiner → Type 0
Space w b s = (s.writer.written ≡ w) × (length s.writer.written + b ≤ s.writer.room)

-- What the builder satisfies, the buffer, and whether an identifier has been inserted.
abbrev pub Has : (ReportIdMapBuilder → Type 0) → List ℕ → ℕ → Bool → Combiner → Type 0
Has K w b f s = K s.builder × Space w b s × (s.report_id_inserted ≡ f)

-- The identifiers that the items of a descriptor declare, each once, in the order of their declaration.
abbrev pub first : List ℕ → ℕ
first [] = 0
first (b ∷ bs) = b

abbrev pub declared_from : List ℕ → List Yield → List ℕ
declared_from ids [] = ids
declared_from ids (err e ∷ ys) = ids
declared_from ids (ok i ∷ ys) =
    declared_from (if is_report_id i.header then add_id ids (first i.payload) else ids) ys

-- An implicit descriptor has one report, if it has a collection.
abbrev pub implicit_from : List Yield → List ℕ
implicit_from [] = []
implicit_from (err e ∷ ys) = []
implicit_from (ok i ∷ ys) = if is_collection i.header then 0 ∷ [] else implicit_from ys

abbrev pub reports_of : HidReportDescriptor → List ℕ
reports_of input =
    if input.report_ids_implicit
    then implicit_from (items input.bytes)
    else declared_from [] (items input.bytes)

pub snoc_append :
    {A : Type 0} (xs : List A) (x : A) (ys : List A) → (xs ++ (x ∷ [])) ++ ys ≡ xs ++ (x ∷ ys)
snoc_append [] x ys = refl
snoc_append (y ∷ xs) x ys = ap (λ l. y ∷ l) (snoc_append xs x ys)

module _ (g : Goal) (K : ReportIdMapBuilder → Type 0) (f : Bool) where
  pub push_slice-Outcome :
      (bytes w v : List ℕ) (b c : ℕ) (s : Combiner)
      → Has K w c f s
      → c ≡ length bytes + b
      → v ≡ w ++ bytes
      → Outcome g (λ u t. Has K v b f t) (push_slice bytes s)
  unfolding push_slice
  push_slice-Outcome bytes w v b c s h e q =
      let l : ltb s.writer.room (length s.writer.written + length bytes) ≡ false =
        ground (arith, h.1.1, e) in
      let n : length s.writer.written + length bytes + b ≤ s.writer.room =
        omega (arith, h.1.1, e) in
      rw l (
        inr (
          tt,
          refl,
          (
            h.0,
            (
              ap (λ z. z ++ bytes) h.1.0 ∙ sym q,
              omega (arith, n, length-append s.writer.written bytes),
            ),
            h.2,
          ),
        ))

  push_two-Outcome :
      (x y : ℕ) (w v : List ℕ) (b : ℕ) (s : Combiner)
      → Has K w (2 + b) f s
      → v ≡ w ++ (x ∷ y ∷ [])
      → Outcome g (λ u t. Has K v b f t) ((push_byte x >> push_byte y) s)
  push_two-Outcome x y w v b s h e =
      bind-Outcome g (λ u t. Has K (w ++ (x ∷ [])) (1 + b) f t) (λ u t. Has K v b f t) (push_byte x)
        (λ _. push_byte y) s
        (push_slice-Outcome (x ∷ []) w (w ++ (x ∷ [])) (1 + b) (2 + b) s h (omega arith) refl)
        (λ u t q.
          push_slice-Outcome (y ∷ []) (w ++ (x ∷ [])) v b (1 + b) t q refl
            (e ∙ sym (snoc_append w x (y ∷ []))))

pub on_builder-Outcome :
    (g : Goal) {A : Type 0} (K : ReportIdMapBuilder → Type 0) (L : A → ReportIdMapBuilder → Type 0)
    (m : Building A) (w : List ℕ) (b : ℕ) (f : Bool) (s : Combiner)
    → Has K w b f s
    → Outcome g L (m s.builder)
    → Outcome g (λ a t. Has (L a) w b f t) (on_builder m s)
on_builder-Outcome g K L m w b f s h (inl e) = inl e
on_builder-Outcome g K L m w b f s h (inr (a, e, l)) = inr (a, e, (l, h.1, h.2))

module _ (g : Goal) (done : List (List ℕ)) (more : List ℕ) where
  abbrev pub Current : List ℕ → ReportIdMapBuilder → Type 0
  Current now = IsBuilt g done now more

  -- The number that an identifier gets, or has.
  abbrev pub number : ℕ → List ℕ → ℕ
  number id now = length (concat done) + position id now + 1

  pub rewrite_id-Outcome :
      (header id : ℕ) (now w v : List ℕ) (b : ℕ) (f : Bool) (s : Combiner)
      → length (concat done) + length (add_id now id) ≤ g.total
      → Has (Current now) w (2 + b) f s
      → v ≡ w ++ (header ∷ number id now ∷ [])
      → Outcome g (λ u t. Has (Current (add_id now id)) v b f t) (rewrite_id header (id ∷ []) s)
  unfolding rewrite_id
  rewrite_id-Outcome header id now w v b f s l h e =
      let K = Current (add_id now id) in
      let L = Numbered g done more (number id now) (add_id now id) in
      bind-Outcome g (λ a t. Has (L a) w (2 + b) f t) (λ u t. Has K v b f t)
        (on_builder (assign id)) (λ new_id. push_byte header >> push_byte new_id) s
        (on_builder-Outcome g (Current now) L (assign id) w (2 + b) f s h
          (assign-Outcome g done more id now s.builder h.0 l))
        (λ a t p.
          push_two-Outcome g K f header a w v b t (p.0.0, p.1, p.2)
            (e ∙ ap (λ z. w ++ (header ∷ z ∷ [])) (sym p.0.1)))

  insert_id-Outcome :
      (now w v : List ℕ) (b : ℕ) (s : Combiner)
      → length (concat done) + length now < g.total
      → Has (Current now) w (2 + b) false s
      → v ≡ w ++ (report_id_header ∷ (length (concat done) + length now + 1) ∷ [])
      → Outcome g (λ u t. Has (Current (now ++ (0 ∷ []))) v b true t) (insert_id s)
  unfolding insert_id
  insert_id-Outcome now w v b s l h e =
      let K = Current (now ++ (0 ∷ [])) in
      let L = Numbered g done more (length (concat done) + length now + 1) (now ++ (0 ∷ [])) in
      let mark : Combine (Unit {0}) = modify λ c. record c { report_id_inserted = true } in
      bind-Outcome g (λ a t. Has (L a) w (2 + b) false t) (λ u t. Has K v b true t)
        (on_builder (record_id 0)) (λ id. (push_byte report_id_header >> push_byte id) >> mark) s
        (on_builder-Outcome g (Current now) L (record_id 0) w (2 + b) false s h
          (record_id-Outcome g done more 0 now s.builder h.0 l))
        (λ a t p.
          bind-Outcome g (λ u x. Has K v b false x) (λ u x. Has K v b true x)
            (push_byte report_id_header >> push_byte a) (λ _. mark) t
            (push_two-Outcome g K false report_id_header a w v b t (p.0.0, p.1, p.2)
              (e ∙ ap (λ z. w ++ (report_id_header ∷ z ∷ [])) (sym p.0.1)))
            (λ u x q. inr (tt, refl, (q.0, q.1, refl))))

  -- One item of a descriptor that is not implicit, and of an implicit one that has its identifier.
  pub copy-Outcome :
      (implicit : Bool) (header : ℕ) (raw now w : List ℕ) (b : ℕ) (f : Bool) (s : Combiner)
      → (implicit && not f && is_collection header) ≡ false
      → Has (Current now) w (length raw + b) f s
      → Outcome g
          (λ u t. Has (Current now) (w ++ raw) b f t)
          ((push_slice raw >> insert_where_due implicit header) s)
  unfolding insert_where_due
  copy-Outcome implicit header raw now w b f s e h =
      bind-Outcome g (λ u t. Has (Current now) (w ++ raw) b f t)
        (λ u t. Has (Current now) (w ++ raw) b f t) (push_slice raw)
        (λ _. insert_where_due implicit header) s
        (push_slice-Outcome g (Current now) f raw w (w ++ raw) b (length raw + b) s h refl refl)
        (λ u t p.
          let c = ap (λ v. implicit && not v && is_collection header) (p.2) ∙ e in
          rw c (inr (tt, refl, p)))

  -- A first collection of an implicit descriptor.
  pub copy_insert-Outcome :
      (header : ℕ) (raw now w v : List ℕ) (b : ℕ) (s : Combiner)
      → is_collection header ≡ true
      → length (concat done) + length now < g.total
      → Has (Current now) w (length raw + (2 + b)) false s
      → v ≡ (w ++ raw) ++ (report_id_header ∷ (length (concat done) + length now + 1) ∷ [])
      → Outcome g
          (λ u t. Has (Current (now ++ (0 ∷ []))) v b true t)
          ((push_slice raw >> insert_where_due true header) s)
  unfolding insert_where_due
  copy_insert-Outcome header raw now w v b s e l h q =
      bind-Outcome g (λ u t. Has (Current now) (w ++ raw) (2 + b) false t)
        (λ u t. Has (Current (now ++ (0 ∷ []))) v b true t) (push_slice raw)
        (λ _. insert_where_due true header) s
        (push_slice-Outcome g (Current now) false raw w (w ++ raw) (2 + b) (length raw + (2 + b)) s
          h refl refl)
        (λ u t p.
          let c = ap (λ z. not z && is_collection header) (p.2) ∙ e in
          rw c (insert_id-Outcome now (w ++ raw) v b t l p q))
