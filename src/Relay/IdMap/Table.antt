-- ===== src/Relay/IdMap/Table.antt =====
-- What the tables of a map stand for: a list of reports for every owner.
use embedded_services.Base.{
  ℕ, zero, suc, ◌+◌, ◌-◌, ◌≤◌, ◌<◌, ◌≡◌, ◌↔◌, ◌⊎◌, inl, inr, refl, ap, sym, ◌∙◌, subst, true, false,
  Option, none, some, List, [], ◌∷◌, ◌++◌, length, length-append, leb, get_elem?, arith,
  Option-cases, All,
}
use embedded_services.Mctp.Encoding.Roundtrip.{skip-append, append_assoc}
use embedded_services.Battery.Buffer.Layout.{take-append}
use embedded_services.Relay.Item.Cut.{get_range?-inside}
use embedded_services.Relay.Blocks.{last_at_most, bounds, bounds_from, or_total}
use embedded_services.Relay.IdMap.{ReportIdMap, find_index, host_of, looked_up}

abbrev pub concat : List (List ℕ) → List ℕ
concat [] = []
concat (r ∷ rs) = r ++ concat rs

-- The first place of every owner.
abbrev pub starts_from : ℕ → List (List ℕ) → List ℕ
starts_from s [] = []
starts_from s (r ∷ rs) = s ∷ starts_from (s + length r) rs

-- Place `i` of all reports, one owner behind the other, is the report `n` of an owner.
abbrev pub IsAt : List (List ℕ) → ℕ → ℕ → ℕ → Type 0
IsAt [] o n i = ⊥
IsAt (r ∷ rs) zero n i = get_elem? r i ≡ some n
IsAt (r ∷ rs) (suc o) n i = (j : ℕ) × (i ≡ length r + j) × IsAt rs o n j

abbrev pub Distinct : List ℕ → Type 0
Distinct [] = Unit
Distinct (x ∷ xs) = (find_index x xs ≡ none) × Distinct xs

pub record IsTableOf (reports : List (List ℕ)) (m : ReportIdMap) : Type 0 where
  pub room : List ℕ
  pub in_order : m.remaps ≡ concat reports ++ room
  pub blocks_start : m.blocks.starts ≡ starts_from 0 reports
  pub all_counted : m.blocks.total ≡ length (concat reports)
  pub few : length (concat reports) < 256

elem-lt : (xs : List ℕ) (i n : ℕ) → get_elem? xs i ≡ some n → i < length xs
elem-lt [] i n h = absurd (ground (arith, h))
elem-lt (x ∷ xs) zero n h = omega arith
elem-lt (x ∷ xs) (suc i) n h = omega (arith, elem-lt xs i n h)

elem-append : (xs ys : List ℕ) (i n : ℕ) → get_elem? xs i ≡ some n → get_elem? (xs ++ ys) i ≡ some n
elem-append [] ys i n h = absurd (ground (arith, h))
elem-append (x ∷ xs) ys zero n h = h
elem-append (x ∷ xs) ys (suc i) n h = elem-append xs ys i n h

elem-behind : (xs ys : List ℕ) (i : ℕ) → get_elem? (xs ++ ys) (length xs + i) ≡ get_elem? ys i
elem-behind [] ys i = let e : 0 + i ≡ i = omega arith in rw e refl
elem-behind (x ∷ xs) ys i =
    let e : suc (length xs) + i ≡ suc (length xs + i) = omega arith in rw e (elem-behind xs ys i)

none_before : (s i : ℕ) (rs : List (List ℕ)) → i < s → last_at_most i (starts_from s rs) ≡ none
unfolding last_at_most
none_before s i [] h = refl
none_before s i (r ∷ rs) h =
    let k : leb s i ≡ false = ground (arith, h) in
    rw (none_before (s + length r) i rs (omega (arith, h)), k) refl

-- The owner and the report at a place.
pub IsAt-found :
    (reports : List (List ℕ)) (room : List ℕ) (s o n i : ℕ)
    → IsAt reports o n i
    → (last_at_most (s + i) (starts_from s reports) ≡ some o)
      × (get_elem? (concat reports ++ room) i ≡ some n)
unfolding last_at_most
IsAt-found [] room s o n i h = absurd h
IsAt-found (r ∷ rs) room s zero n i h =
    let l = elem-lt r i n h in
    let k : leb s (s + i) ≡ true = ground arith in
    (
      rw (none_before (s + length r) (s + i) rs (omega (arith, l)), k) refl,
      rw (append_assoc r (concat rs) room) (elem-append r (concat rs ++ room) i n h),
    )
IsAt-found (r ∷ rs) room s (suc o) n i h =
    let k = IsAt-found rs room (s + length r) o n h.0 h.2 in
    let e : s + length r + h.0 ≡ s + i = omega (arith, h.1) in
    let g = subst (λ v. last_at_most v (starts_from (s + length r) rs) ≡ some o) e k.0 in
    (
      rw g refl,
      rw (h.1, append_assoc r (concat rs) room, elem-behind r (concat rs ++ room) h.0) k.1,
    )

pub IsAt-exists :
    (reports : List (List ℕ)) (i : ℕ)
    → i < length (concat reports)
    → (o : ℕ) × (n : ℕ) × IsAt reports o n i
IsAt-exists [] i h = absurd (omega (arith, h))
IsAt-exists (r ∷ rs) i h = elim (Option-cases (get_elem? r i)) [
  | inr (n, e) ↦ (0, n, e)
  | inl e ↦
      let l = elem_none r i e in
      let k = IsAt-exists rs (i - length r) (omega (arith, h, l, length-append r (concat rs))) in
      (suc k.0, k.1, (i - length r, omega (arith, l), k.2))
]
  where
    elem_none : (xs : List ℕ) (j : ℕ) → get_elem? xs j ≡ none → length xs ≤ j
    elem_none [] j e = omega arith
    elem_none (x ∷ xs) zero e = absurd (ground (arith, e))
    elem_none (x ∷ xs) (suc j) e = omega (arith, elem_none xs j e)

pub IsAt-lt :
    (reports : List (List ℕ)) (o n i : ℕ) → IsAt reports o n i → i < length (concat reports)
IsAt-lt [] o n i h = absurd h
IsAt-lt (r ∷ rs) zero n i h = omega (arith, elem-lt r i n h, length-append r (concat rs))
IsAt-lt (r ∷ rs) (suc o) n i h =
    omega (arith, h.1, IsAt-lt rs o n h.0 h.2, length-append r (concat rs))

-- The block of an owner.
abbrev pub BlockAt : List (List ℕ) → ℕ → ℕ → List ℕ → Type 0
BlockAt reports o off b =
    (n i : ℕ) → IsAt reports o n i ↔ ((k : ℕ) × (i ≡ off + k) × (get_elem? b k ≡ some n))

abbrev pub tables : List ℕ → List (List ℕ) → List ℕ → ReportIdMap
tables pre reports room = record {
  remaps = pre ++ (concat reports ++ room);
  blocks = record {
    starts = starts_from (length pre) reports;
    total = length pre + length (concat reports);
  };
}

-- What is looked for in the block of an owner.
abbrev pub look : List ℕ → List (List ℕ) → List ℕ → ℕ → ℕ → Option ℕ
look pre reports room o n = let m = tables pre reports room in looked_up m n (bounds m.blocks o)

abbrev pub Looks : List ℕ → List (List ℕ) → List ℕ → ℕ → Type 0
Looks pre reports room o =
    (((n : ℕ) → look pre reports room o n ≡ none) × ((n i : ℕ) → IsAt reports o n i → ⊥))
    ⊎ ((off : ℕ) × (b : List ℕ) × ((n : ℕ)
          → look pre reports room o n ≡ host_of (length pre + off) (find_index n b))
        × BlockAt reports o off b
        × Distinct b)

first_end :
    (s t : ℕ) (rs : List (List ℕ))
    → t ≡ s + length (concat rs)
    → or_total t (get_elem? (starts_from s rs) 0) ≡ s
first_end s t [] e = omega (arith, e)
first_end s t (r ∷ rs) e = refl

bounds_tail :
    (s total o : ℕ) (ss : List ℕ) (start : Option ℕ)
    → bounds_from (record { starts = s ∷ ss; total = total }) (suc o) start
      ≡ bounds_from (record { starts = ss; total = total }) o start
bounds_tail s total o ss none = refl
bounds_tail s total o ss (some a) =
    let e : suc o + 1 ≡ suc (o + 1) = omega arith in
    ap (λ k. some (a, or_total total (get_elem? (s ∷ ss) k))) e

-- The first owner's reports may stand with what comes before all of them.
look-behind :
    (pre r : List ℕ) (rs : List (List ℕ)) (room : List ℕ) (o n : ℕ)
    → look pre (r ∷ rs) room (suc o) n ≡ look (pre ++ r) rs room o n
unfolding bounds
look-behind pre r rs room o n =
    let q = length-append pre r in
    let t = length-append r (concat rs) in
    let ss = starts_from (length pre + length r) rs in
    let total = length pre + length (r ++ concat rs) in
    let at : List ℕ → List ℕ → ℕ → Option ℕ = λ remaps starts total.
      looked_up (record { remaps = remaps; blocks = record { starts = starts; total = total } }) n
        (bounds (record { starts = starts; total = total }) o) in
    let e2 : total ≡ length (pre ++ r) + length (concat rs) = omega (arith, q, t) in
    let e3 : pre ++ ((r ++ concat rs) ++ room) ≡ (pre ++ r) ++ (concat rs ++ room) =
      rw (append_assoc r (concat rs) room, append_assoc pre r (concat rs ++ room)) refl in
    ap (λ b. looked_up (tables pre (r ∷ rs) room) n b)
      (bounds_tail (length pre) total o ss (get_elem? ss o))
    ∙ ap (λ v. at v ss total) e3
    ∙ ap (λ v. at ((pre ++ r) ++ (concat rs ++ room)) ss v) e2
    ∙ ap
        (λ v.
          at ((pre ++ r) ++ (concat rs ++ room)) (starts_from v rs)
            (length (pre ++ r) + length (concat rs)))
        (sym q)

pub Looks-All :
    (pre : List ℕ) (reports : List (List ℕ)) (room : List ℕ) (o : ℕ)
    → All Distinct reports
    → Looks pre reports room o
unfolding bounds
Looks-All pre [] room o d = inl (λ n. refl, λ n i h. h)
Looks-All pre (r ∷ rs) room zero d =
    let t = length-append r (concat rs) in
    let e =
      first_end (length pre + length r) (length pre + length (r ++ concat rs)) rs
        (omega (arith, t)) in
    let q = length-append pre ((r ++ concat rs) ++ room) in
    let v = length-append (r ++ concat rs) room in
    let g =
      get_range?-inside (length pre) (length r) (pre ++ ((r ++ concat rs) ++ room))
        (omega (arith, q, v, t)) in
    inr (
      0,
      r,
      λ n.
          rw
            (
              e,
              g,
              skip-append pre ((r ++ concat rs) ++ room),
              append_assoc r (concat rs) room,
              take-append r (concat rs ++ room),
            )
            (ap (λ z. host_of z (find_index n r)) (omega arith)),
      λ n i. (λ h. (i, omega arith, h), λ h. let e : i ≡ h.0 = omega (arith, h.1) in rw e h.2),
      d.0,
    )
Looks-All pre (r ∷ rs) room (suc o) d =
    let e = look-behind pre r rs room o in
    elim (Looks-All (pre ++ r) rs room o d.1) [
      | inl k ↦ inl (λ n. e n ∙ k.0 n, λ n i h. k.1 n h.0 h.2)
      | inr (off, b, f, at, ds) ↦
          let q = length-append pre r in
          inr (
            length r + off,
            b,
            λ n. e n ∙ f n ∙ ap (λ z. host_of z (find_index n b)) (omega (arith, q)),
            λ n i. (
              λ h. let k = (at n h.0).0 h.2 in (k.0, omega (arith, h.1, k.1), k.2),
              λ k. (off + k.0, omega (arith, k.1), (at n (off + k.0)).1 (k.0, refl, k.2)),
            ),
            ds,
          )
    ]
