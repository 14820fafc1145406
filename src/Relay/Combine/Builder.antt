-- ===== src/Relay/Combine/Builder.antt =====
-- The builder of a map of report identifiers: what its tables hold while the inputs are taken in.
use embedded_services.Base.{
  if◌then◌else◌, ◌==◌, ltb→lt, subst, ℕ, suc, ◌+◌, ◌≤◌, ◌<◌, ◌≡◌, inl, inr, refl, ap, sym, ◌∙◌,
  true, Option, none, some, List, [], ◌∷◌, ◌++◌, ok, length, length-append, ltb, arith, Bool-cases,
  Option-cases,
}
use embedded_services.Mctp.Encoding.Roundtrip.{skip-append, append_assoc, append_nil}
use embedded_services.Battery.Buffer.Layout.{take-append}
use embedded_services.Relay.Item.Cut.{get_range?-inside}
use embedded_services.Relay.Blocks.{set_elem?, set_start, set_total}
use embedded_services.Relay.IdMap.{
  ReportIdMapBuilder, find_index, host_of, begin_input, assigned, recorded, record_id, assign,
  finish,
}
use embedded_services.Relay.IdMap.Table.{concat, starts_from, IsTableOf}
use embedded_services.Relay.Combine.Outcome.{Goal, Outcome}

-- The reports of the inputs before this one and of this one, and the starts of those that follow.
pub record IsBuilt (g : Goal) (done : List (List ℕ)) (now : List ℕ) (more : List ℕ)
    (b : ReportIdMapBuilder) : Type 0 where
  pub room : List ℕ
  pub in_order : b.remaps ≡ (concat done ++ now) ++ room
  pub blocks_start : b.blocks.starts ≡ starts_from 0 done ++ (length (concat done) ∷ more)
  pub all_counted : b.count ≡ length (concat done) + length now
  pub now_starts : b.input_start ≡ length (concat done)
  pub few : b.count < 256
  pub size : length (concat done) + length now + length room ≡ g.capacity

-- The same between two inputs.
pub record IsBetween (g : Goal) (done : List (List ℕ)) (more : List ℕ) (b : ReportIdMapBuilder)
    : Type 0 where
  pub room : List ℕ
  pub in_order : b.remaps ≡ concat done ++ room
  pub blocks_start : b.blocks.starts ≡ starts_from 0 done ++ more
  pub all_counted : b.count ≡ length (concat done)
  pub few : b.count < 256
  pub size : length (concat done) + length room ≡ g.capacity

-- The reports with one more, unless it is there.
abbrev pub added : ℕ → List ℕ → Option ℕ → List ℕ
added id now (some k) = now
added id now none = now ++ (id ∷ [])

abbrev pub add_id : List ℕ → ℕ → List ℕ
add_id now id = added id now (find_index id now)

set_elem?-behind :
    (xs ys : List ℕ) (v : ℕ)
    → set_elem? (length xs) v (xs ++ ys) ≡ elim ys [ [] ↦ none | y ∷ zs ↦ some (xs ++ (v ∷ zs)) ]
unfolding set_elem?
set_elem?-behind [] [] v = refl
set_elem?-behind [] (y ∷ zs) v = refl
set_elem?-behind (x ∷ xs) [] v = rw (set_elem?-behind xs [] v) refl
set_elem?-behind (x ∷ xs) (y ∷ zs) v = rw (set_elem?-behind xs (y ∷ zs) v) refl

set_elem?-at :
    (xs ys : List ℕ) (v i : ℕ)
    → length xs ≡ i
    → set_elem? i v (xs ++ ys) ≡ elim ys [ [] ↦ none | y ∷ zs ↦ some (xs ++ (v ∷ zs)) ]
set_elem?-at xs ys v i e =
    subst (λ k. set_elem? k v (xs ++ ys) ≡ elim ys [ [] ↦ none | y ∷ zs ↦ some (xs ++ (v ∷ zs)) ]) e
      (set_elem?-behind xs ys v)

length-starts_from : (s : ℕ) (done : List (List ℕ)) → length (starts_from s done) ≡ length done
length-starts_from s [] = refl
length-starts_from s (r ∷ rs) = ap suc (length-starts_from (s + length r) rs)

concat_last :
    (done : List (List ℕ)) (now : List ℕ) → concat (done ++ (now ∷ [])) ≡ concat done ++ now
concat_last [] now = append_nil now
concat_last (r ∷ rs) now = rw (concat_last rs now, append_assoc r (concat rs) now) refl

starts_from_last :
    (s : ℕ) (done : List (List ℕ)) (now : List ℕ)
    → starts_from s (done ++ (now ∷ [])) ≡ starts_from s done ++ ((s + length (concat done)) ∷ [])
starts_from_last s [] now = ap (λ n. n ∷ []) (omega arith)
starts_from_last s (r ∷ rs) now =
    let e : s + length r + length (concat rs) ≡ s + length (r ++ concat rs) =
      omega (arith, length-append r (concat rs)) in
    rw (starts_from_last (s + length r) rs now, e) refl

find_index-lt : (b : List ℕ) (n k : ℕ) → find_index n b ≡ some k → k < length b
unfolding find_index
find_index-lt [] n k h = absurd (ground (arith, h))
find_index-lt (x ∷ xs) n k h = elim (Bool-cases (x == n)) [
  | inl e ↦ ground (arith, h, e)
  | inr e ↦ elim (Option-cases (find_index n xs)) [
    | inl f ↦ absurd (ground (arith, h, e, f))
    | inr (j, f) ↦
        let g : k ≡ suc j = ground (arith, h, e, f) in omega (arith, g, find_index-lt xs n j f)
  ]
]

-- Where an identifier stands in a list, or would be added.
abbrev pub position : ℕ → List ℕ → ℕ
position id [] = 0
position id (x ∷ xs) = if x == id then 0 else suc (position id xs)

position-find_index :
    (id : ℕ) (xs : List ℕ)
    → position id xs ≡ elim (find_index id xs) [ some k ↦ k | none ↦ length xs ]
unfolding find_index
position-find_index id [] = refl
position-find_index id (x ∷ xs) = elim (Bool-cases (x == id)) [
  | inl e ↦ rw e refl
  | inr e ↦ elim (Option-cases (find_index id xs)) [
    | inl f ↦ rw (e, position-find_index id xs, f) refl
    | inr (j, f) ↦ rw (e, position-find_index id xs, f) refl
  ]
]

module _ (g : Goal) (done : List (List ℕ)) (more : List ℕ) where
  -- The reports of this input are `now`, and a call has given the identifier `n`.
  abbrev pub Numbered : ℕ → List ℕ → ℕ → ReportIdMapBuilder → Type 0
  Numbered n now a c = IsBuilt g done now more c × (a ≡ n)

  pub begin_input-Outcome :
      (start : ℕ) (b : ReportIdMapBuilder)
      → IsBetween g done (start ∷ more) b
      → Outcome g (λ u c. IsBuilt g done [] more c) (begin_input (length done) b)
  unfolding begin_input set_start
  begin_input-Outcome start b k =
      let few : ltb b.count 256 ≡ true = ground (arith, k.few) in
      let e =
        set_elem?-at (starts_from 0 done) (start ∷ more) b.count (length done)
          (length-starts_from 0 done) in
      rw (few, k.blocks_start, e)
        (inr (
          tt,
          refl,
          record {
            room = k.room;
            in_order = k.in_order ∙ ap (λ v. v ++ k.room) (sym (append_nil (concat done)));
            blocks_start = rw (k.all_counted) refl;
            all_counted = omega (arith, k.all_counted);
            now_starts = k.all_counted;
            few = k.few;
            size = omega (arith, k.size);
          },
        ))

  recorded-Outcome :
      (id : ℕ) (now room : List ℕ) (b : ReportIdMapBuilder) (k : IsBuilt g done now more b)
      → b.remaps ≡ (concat done ++ now) ++ room
      → length (concat done) + length now + length room ≡ g.capacity
      → b.count + 1 < 256
      → length (concat done) + length now < g.total
      → Outcome g
          (Numbered (length (concat done) + length now + 1) (now ++ (id ∷ [])))
          (recorded (elim room [ [] ↦ none | y ∷ zs ↦ some ((concat done ++ now) ++ (id ∷ zs)) ]) b)
  recorded-Outcome id now [] b k e s l t = inl (refl, inl (omega (arith, s, t)))
  recorded-Outcome id now (y ∷ zs) b k e s l t = inr (
    b.count + 1,
    refl,
    (
      record {
        room = zs;
        in_order = sym (
            ap (λ v. v ++ zs) (sym (append_assoc (concat done) now (id ∷ [])))
            ∙ append_assoc (concat done ++ now) (id ∷ []) zs);
        blocks_start = k.blocks_start;
        all_counted = omega (arith, k.all_counted, length-append now (id ∷ []));
        now_starts = k.now_starts;
        few = l;
        size = omega (arith, s, length-append now (id ∷ []));
      },
      omega (arith, k.all_counted),
    ),
  )

  pub record_id-Outcome :
      (id : ℕ) (now : List ℕ) (b : ReportIdMapBuilder)
      → IsBuilt g done now more b
      → length (concat done) + length now < g.total
      → Outcome g
          (Numbered (length (concat done) + length now + 1) (now ++ (id ∷ [])))
          (record_id id b)
  unfolding record_id
  record_id-Outcome id now b k t = elim (Bool-cases (ltb (b.count + 1) 256)) [
    | inl l ↦
        let n = length-append (concat done) now in
        let e =
          set_elem?-at (concat done ++ now) k.room id b.count (omega (arith, k.all_counted, n)) in
        let f = ap (λ v. set_elem? b.count id v) k.in_order ∙ e in
        rw (l, f)
          (recorded-Outcome id now k.room b k k.in_order k.size (ltb→lt (b.count + 1) 256 l) t)
    | inr l ↦
        let m : 255 < b.count + 1 = ground (arith, l) in
        rw l (inl (refl, inr (omega (arith, m, t, k.all_counted))))
  ]

  assigned_lem :
      (id : ℕ) (now : List ℕ) (b : ReportIdMapBuilder)
      → IsBuilt g done now more b
      → assigned b id ≡ host_of (length (concat done)) (find_index id now)
  unfolding assigned
  assigned_lem id now b k =
      let q = length-append (concat done) (now ++ k.room) in
      let w = length-append now k.room in
      let e =
        get_range?-inside (length (concat done)) (length now) (concat done ++ (now ++ k.room))
          (omega (arith, q, w)) in
      rw
        (
          k.now_starts,
          k.all_counted,
          k.in_order,
          append_assoc (concat done) now k.room,
          e,
          skip-append (concat done) (now ++ k.room),
          take-append now k.room,
        )
        refl

  pub assign-Outcome :
      (id : ℕ) (now : List ℕ) (b : ReportIdMapBuilder)
      → IsBuilt g done now more b
      → length (concat done) + length (add_id now id) ≤ g.total
      → Outcome g
          (Numbered (length (concat done) + position id now + 1) (add_id now id))
          (assign id b)
  unfolding assign
  assign-Outcome id now b k t = elim (Option-cases (find_index id now)) [
    | inl e ↦
        let l = ap (λ v. length (added id now v)) e in
        let p =
          position-find_index id now ∙ ap (λ o. elim o [ some k ↦ k | none ↦ length now ]) e in
        rw (assigned_lem id now b k, e, p)
          (record_id-Outcome id now b k (omega (arith, t, l, length-append now (id ∷ []))))
    | inr (j, e) ↦
        let l = find_index-lt now id j e in
        let c : ltb (length (concat done) + j + 1) 256 ≡ true =
          ground (arith, l, k.few, k.all_counted) in
        let p =
          position-find_index id now ∙ ap (λ o. elim o [ some k ↦ k | none ↦ length now ]) e in
        rw (assigned_lem id now b k, e, c, p) (inr (length (concat done) + j + 1, refl, (k, refl)))
  ]

  pub built-IsBetween :
      (now : List ℕ) (b : ReportIdMapBuilder)
      → IsBuilt g done now more b
      → IsBetween g (done ++ (now ∷ [])) more b
  built-IsBetween now b k = record {
    room = k.room;
    in_order = rw (concat_last done now) k.in_order;
    blocks_start =
        k.blocks_start
        ∙ rw
            (
              starts_from_last 0 done now,
              append_assoc (starts_from 0 done) ((0 + length (concat done)) ∷ []) more,
            )
            (ap (λ n. starts_from 0 done ++ (n ∷ more)) (omega arith));
    all_counted =
        rw (concat_last done now) (omega (arith, k.all_counted, length-append (concat done) now));
    few = k.few;
    size = rw (concat_last done now) (omega (arith, k.size, length-append (concat done) now));
  }

-- The finished tables.
pub finish-IsTableOf :
    (g : Goal) (done : List (List ℕ)) (b : ReportIdMapBuilder)
    → IsBetween g done [] b
    → ((finish b).0 ≡ ok b.count)
      × IsTableOf done (record { remaps = (finish b).1.remaps; blocks = (finish b).1.blocks })
unfolding finish set_total
finish-IsTableOf g done b k =
    let c : ltb b.count 256 ≡ true = ground (arith, k.few) in
    rw c (
      refl,
      record {
        room = k.room;
        in_order = k.in_order;
        blocks_start = k.blocks_start ∙ append_nil (starts_from 0 done);
        all_counted = k.all_counted;
        few = omega (arith, k.few, k.all_counted);
      },
    )
