-- ===== src/Relay/IdMap/Routes.antt =====
-- The numbers that a map gives to the reports, and the way back.
use embedded_services.Base.{
  ℕ, zero, suc, ◌+◌, ◌≡◌, inl, inr, refl, ap, sym, ◌∙◌, subst, true, Option, none, some, List, [],
  ◌∷◌, ◌++◌, length, ltb, ltb→lt, ◌==◌, ==_iff, get_elem?, arith, Bool-cases, Option-cases, All,
}
use embedded_services.Relay.Blocks.{last_at_most, owner_of, bounds}
use embedded_services.Relay.IdMap.{
  ReportIdMap, find_index, host_of, as_u8, index_of, route, host_id, looked_up,
}
use embedded_services.Relay.IdMap.Table.{
  concat, starts_from, IsAt, Distinct, IsTableOf, IsAt-found, IsAt-exists, IsAt-lt, look, Looks-All,
}

-- The reports of a map are numbered from 1.
pub IsAt-route :
    (reports : List (List ℕ)) (m : ReportIdMap) (o n i : ℕ)
    → IsTableOf reports m
    → IsAt reports o n i
    → route m (suc i) ≡ some (o, n)
unfolding route index_of owner_of
IsAt-route reports m o n i t h =
    let l = IsAt-lt reports o n i h in
    let f = IsAt-found reports t.room 0 o n i h in
    let k : ltb i (length (concat reports)) ≡ true = ground (arith, l) in
    let e : 0 + i ≡ i = omega arith in
    let g : last_at_most i (starts_from 0 reports) ≡ some o = rw (sym e) f.0 in
    rw (t.all_counted, k, t.blocks_start, g, t.in_order, f.1) refl

pub route-IsAt :
    (reports : List (List ℕ)) (m : ReportIdMap) (o n h : ℕ)
    → IsTableOf reports m
    → route m h ≡ some (o, n)
    → (i : ℕ) × (h ≡ suc i) × IsAt reports o n i
unfolding route index_of
route-IsAt reports m o n zero t h = absurd (ground (arith, h))
route-IsAt reports m o n (suc i) t h = elim (Bool-cases (ltb i m.blocks.total)) [
  | inl e ↦
      let k = IsAt-exists reports i (omega (arith, ltb→lt i m.blocks.total e, t.all_counted)) in
      let f = sym (IsAt-route reports m k.0 k.1 i t k.2) ∙ h in
      (i, refl, subst (λ v. IsAt reports v.0 v.1 i) (ap pair_or f) k.2)
  | inr e ↦ absurd (ground (arith, h, e))
]
  where
    pair_or : Option (ℕ × ℕ) → ℕ × ℕ
    pair_or (some v) = v
    pair_or none = (0, 0)

elem-find_index : (b : List ℕ) (n k : ℕ) → find_index n b ≡ some k → get_elem? b k ≡ some n
unfolding find_index
elem-find_index [] n k h = absurd (ground (arith, h))
elem-find_index (x ∷ xs) n k h = elim (Bool-cases (x == n)) [
  | inl e ↦ let g : k ≡ 0 = ground (arith, h, e) in rw g (ap some ((==_iff x n).0 e))
  | inr e ↦ elim (Option-cases (find_index n xs)) [
    | inl f ↦ absurd (ground (arith, h, e, f))
    | inr (j, f) ↦ let g : k ≡ suc j = ground (arith, h, e, f) in rw g (elem-find_index xs n j f)
  ]
]

find_index-elem :
    (b : List ℕ) (n k : ℕ) → Distinct b → get_elem? b k ≡ some n → find_index n b ≡ some k
unfolding find_index
find_index-elem [] n k d h = absurd (ground (arith, h))
find_index-elem (x ∷ xs) n zero d h =
    let e : x ≡ n = ground (arith, h) in let k : (x == n) ≡ true = (==_iff x n).1 e in rw k refl
find_index-elem (x ∷ xs) n (suc k) d h =
    let f = find_index-elem xs n k d.1 h in
    elim (Bool-cases (x == n)) [
      | inl e ↦
          let g : find_index x xs ≡ some k = rw ((==_iff x n).0 e) f in
          absurd (ground (arith, sym (d.0) ∙ g))
      | inr e ↦ rw (e, f) refl
    ]

host_id-look :
    (reports : List (List ℕ)) (m : ReportIdMap) (o n : ℕ) (t : IsTableOf reports m)
    → host_id m o n ≡ look [] reports t.room o n
unfolding host_id
host_id-look reports m o n t =
    let at : List ℕ → List ℕ → ℕ → Option ℕ = λ remaps starts total.
      looked_up (record { remaps = remaps; blocks = record { starts = starts; total = total } }) n
        (bounds (record { starts = starts; total = total }) o) in
    let ss = starts_from 0 reports in
    let all = concat reports ++ t.room in
    let e : m.blocks.total ≡ 0 + length (concat reports) = omega (arith, t.all_counted) in
    ap (λ v. at v m.blocks.starts m.blocks.total) t.in_order
    ∙ ap (λ v. at all v m.blocks.total) t.blocks_start
    ∙ ap (λ v. at all ss v) e

pub IsAt-host_id :
    (reports : List (List ℕ)) (m : ReportIdMap) (o n i : ℕ)
    → IsTableOf reports m
    → All Distinct reports
    → IsAt reports o n i
    → host_id m o n ≡ some (suc i)
IsAt-host_id reports m o n i t d h = elim (Looks-All [] reports t.room o d) [
  | inl k ↦ absurd (k.1 n i h)
  | inr (off, b, f, at, ds) ↦
      let k = (at n i).0 h in
      let l = IsAt-lt reports o n i h in
      let e : 0 + off + k.0 + 1 ≡ suc i = omega (arith, k.1) in
      let c : ltb (suc i) 256 ≡ true = ground (arith, l, t.few) in
      host_id-look reports m o n t ∙ f n ∙ rw (find_index-elem b n k.0 ds k.2, e, c) refl
]

pub host_id-IsAt :
    (reports : List (List ℕ)) (m : ReportIdMap) (o n h : ℕ)
    → IsTableOf reports m
    → All Distinct reports
    → host_id m o n ≡ some h
    → (i : ℕ) × (h ≡ suc i) × IsAt reports o n i
host_id-IsAt reports m o n h t d e = elim (Looks-All [] reports t.room o d) [
  | inl k ↦ absurd (ground (arith, sym (k.0 n) ∙ sym (host_id-look reports m o n t) ∙ e))
  | inr (off, b, f, at, ds) ↦
      let g : host_of (0 + off) (find_index n b) ≡ some h =
        sym (f n) ∙ sym (host_id-look reports m o n t) ∙ e in
      elim (Option-cases (find_index n b)) [
        | inl k ↦ absurd (ground (arith, sym (ap (λ z. host_of (0 + off) z) k) ∙ g))
        | inr (k, q) ↦
            let u : as_u8 (0 + off + k + 1) ≡ some h = sym (ap (λ z. host_of (0 + off) z) q) ∙ g in
            (off + k, ground (arith, u), (at n (off + k)).1 (k, refl, elem-find_index b n k q))
      ]
]
