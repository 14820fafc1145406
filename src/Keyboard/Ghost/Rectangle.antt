-- ===== src/Keyboard/Ghost/Rectangle.antt =====
-- A ghost is reported exactly for four keys at the corners of a rectangle.
use embedded_services.Base.{
  ℕ, zero, suc, ◌≤◌, ◌<◌, ◌≡◌, ◌↔◌, ◌⊎◌, inl, inr, refl, sym, ap, ◌∙◌, Bool, true, false, ◌&&◌,
  ◌||◌, List, [], ◌∷◌, arith, leb, leb→le, Bool-cases,
}
use embedded_services.Keyboard.Ghost.{
  Column, pack, count_ones, both, pack_all, count, shares_two, any_pair, has_ghost,
}

-- The key in a row, and in a column and a row.
abbrev pub bit : Column → ℕ → Bool
bit [] r = false
bit (x ∷ xs) zero = x
bit (x ∷ xs) (suc r) = bit xs r

abbrev pub column : List Column → ℕ → Column
column [] i = []
column (c ∷ cs) zero = c
column (c ∷ cs) (suc i) = column cs i

abbrev pub key : List Column → ℕ → ℕ → Bool
key cs i r = bit (column cs i) r

-- Four pressed keys in two columns and two rows.
abbrev pub HasRectangle : List Column → Type 0
HasRectangle cs =
    (i : ℕ) × (j : ℕ) × (r : ℕ) × (s : ℕ) × (i < j)
    × (r < s)
    × (key cs i r ≡ true)
    × (key cs i s ≡ true)
    × (key cs j r ≡ true)
    × (key cs j s ≡ true)

pack_id : (c : Column) → pack c ≡ c
unfolding pack
pack_id [] = refl
pack_id (true ∷ xs) = ap (λ l. true ∷ l) (pack_id xs)
pack_id (false ∷ xs) = ap (λ l. false ∷ l) (pack_id xs)

pack_all_id : (cs : List Column) → pack_all cs ≡ cs
unfolding pack_all
pack_all_id [] = refl
pack_all_id (c ∷ cs) = rw (pack_id c, pack_all_id cs) refl

and_true : (a b : Bool) → (a && b) ≡ true → (a ≡ true) × (b ≡ true)
and_true true b h = (refl, h)
and_true false b h = absurd (ground arith)

or_true : (a b : Bool) → (a || b) ≡ true → (a ≡ true) ⊎ (b ≡ true)
or_true true b h = inl refl
or_true false b h = inr h

or_left : (a b : Bool) → a ≡ true → (a || b) ≡ true
or_left a b h = rw h refl

or_right : (a b : Bool) → b ≡ true → (a || b) ≡ true
or_right true b h = refl
or_right false b h = h

and_false : (a : Bool) → false ≡ (a && false)
and_false true = refl
and_false false = refl

bit-both : (a b : Column) (r : ℕ) → bit (both a b) r ≡ (bit a r && bit b r)
unfolding both
bit-both [] b r = refl
bit-both (x ∷ xs) [] zero = and_false x
bit-both (x ∷ xs) [] (suc r) = and_false (bit xs r)
bit-both (x ∷ xs) (y ∷ ys) zero = refl
bit-both (x ∷ xs) (y ∷ ys) (suc r) = bit-both xs ys r

-- A set bit is counted, and a count comes from set bits.
count_ones-one : (c : Column) → 1 ≤ count_ones c → (r : ℕ) × (bit c r ≡ true)
unfolding count_ones
count_ones-one [] h = absurd (omega (arith, h))
count_ones-one (true ∷ xs) h = (0, refl)
count_ones-one (false ∷ xs) h = let k = count_ones-one xs (omega (arith, h)) in (suc k.0, k.1)

count_ones-two :
    (c : Column)
    → 2 ≤ count_ones c
    → (r : ℕ) × (s : ℕ) × (r < s) × (bit c r ≡ true) × (bit c s ≡ true)
unfolding count_ones
count_ones-two [] h = absurd (omega (arith, h))
count_ones-two (true ∷ xs) h =
    let k = count_ones-one xs (omega (arith, h)) in (0, suc k.0, omega arith, refl, k.1)
count_ones-two (false ∷ xs) h =
    let k = count_ones-two xs (omega (arith, h)) in (suc k.0, suc k.1, omega (arith, k.2), k.3, k.4)

one-count_ones : (c : Column) (r : ℕ) → bit c r ≡ true → 1 ≤ count_ones c
unfolding count_ones
one-count_ones [] r h = absurd (ground arith)
one-count_ones (true ∷ xs) r h = omega arith
one-count_ones (false ∷ xs) zero h = absurd (ground arith)
one-count_ones (false ∷ xs) (suc r) h = omega (arith, one-count_ones xs r h)

two-count_ones : (c : Column) (r s : ℕ) → r < s → bit c r ≡ true → bit c s ≡ true → 2 ≤ count_ones c
unfolding count_ones
two-count_ones [] r s l h k = absurd (ground arith)
two-count_ones (x ∷ xs) r zero l h k = absurd (omega (arith, l))
two-count_ones (true ∷ xs) zero (suc s) l h k = omega (arith, one-count_ones xs s k)
two-count_ones (false ∷ xs) zero (suc s) l h k = absurd (ground arith)
two-count_ones (x ∷ xs) (suc r) (suc s) l h k =
    omega (arith, two-count_ones xs r s (omega (arith, l)) h k)

leb_two : (n : ℕ) → 2 ≤ n → leb 2 n ≡ true
leb_two n h = ground (arith, h)

-- A column that shares two pressed rows with one of some columns.
shares_two-found :
    (c : Column) (cs : List Column)
    → shares_two c cs ≡ true
    → (j : ℕ) × (r : ℕ) × (s : ℕ) × (r < s)
      × (bit c r ≡ true)
      × (bit c s ≡ true)
      × (key cs j r ≡ true)
      × (key cs j s ≡ true)
unfolding shares_two
shares_two-found c [] h = absurd (ground arith)
shares_two-found c (d ∷ cs) h = elim (or_true (leb 2 (count_ones (both c d))) (shares_two c cs) h) [
  | inl e ↦
      let k = count_ones-two (both c d) (leb→le 2 (count_ones (both c d)) e) in
      let a = and_true (bit c k.0) (bit d k.0) (sym (bit-both c d k.0) ∙ k.3) in
      let b = and_true (bit c k.1) (bit d k.1) (sym (bit-both c d k.1) ∙ k.4) in
      (0, k.0, k.1, k.2, a.0, b.0, a.1, b.1)
  | inr e ↦ let k = shares_two-found c cs e in (suc k.0, k.1, k.2, k.3, k.4, k.5, k.6, k.7)
]

found-shares_two :
    (c : Column) (cs : List Column) (j r s : ℕ)
    → r < s
    → bit c r ≡ true
    → bit c s ≡ true
    → key cs j r ≡ true
    → key cs j s ≡ true
    → shares_two c cs ≡ true
unfolding shares_two
found-shares_two c [] j r s l a b p q = absurd (ground arith)
found-shares_two c (d ∷ cs) zero r s l a b p q =
    let e : bit (both c d) r ≡ true = rw (bit-both c d r, a, p) refl in
    let f : bit (both c d) s ≡ true = rw (bit-both c d s, b, q) refl in
    or_left (leb 2 (count_ones (both c d))) (shares_two c cs)
      (leb_two (count_ones (both c d)) (two-count_ones (both c d) r s l e f))
found-shares_two c (d ∷ cs) (suc j) r s l a b p q =
    or_right (leb 2 (count_ones (both c d))) (shares_two c cs)
      (found-shares_two c cs j r s l a b p q)

any_pair-found : (cs : List Column) → any_pair cs ≡ true → HasRectangle cs
unfolding any_pair
any_pair-found [] h = absurd (ground arith)
any_pair-found (c ∷ cs) h = elim (or_true (shares_two c cs) (any_pair cs) h) [
  | inl e ↦
      let k = shares_two-found c cs e in
      (0, suc k.0, k.1, k.2, omega arith, k.3, k.4, k.5, k.6, k.7)
  | inr e ↦
      let k = any_pair-found cs e in
      (suc k.0, suc k.1, k.2, k.3, omega (arith, k.4), k.5, k.6, k.7, k.8, k.9)
]

found-any_pair :
    (cs : List Column) (i j r s : ℕ)
    → i < j
    → r < s
    → key cs i r ≡ true
    → key cs i s ≡ true
    → key cs j r ≡ true
    → key cs j s ≡ true
    → any_pair cs ≡ true
unfolding any_pair
found-any_pair [] i j r s l m a b p q = absurd (ground arith)
found-any_pair (c ∷ cs) i zero r s l m a b p q = absurd (omega (arith, l))
found-any_pair (c ∷ cs) zero (suc j) r s l m a b p q =
    or_left (shares_two c cs) (any_pair cs) (found-shares_two c cs j r s m a b p q)
found-any_pair (c ∷ cs) (suc i) (suc j) r s l m a b p q =
    or_right (shares_two c cs) (any_pair cs)
      (found-any_pair cs i j r s (omega (arith, l)) m a b p q)

-- Two columns with two keys each are four keys.
column_counted :
    (cs : List Column) (j r s : ℕ) → r < s → key cs j r ≡ true → key cs j s ≡ true → 2 ≤ count cs
unfolding count
column_counted [] j r s l a b = absurd (ground arith)
column_counted (c ∷ cs) zero r s l a b = omega (arith, two-count_ones c r s l a b)
column_counted (c ∷ cs) (suc j) r s l a b = omega (arith, column_counted cs j r s l a b)

rectangle_counted :
    (cs : List Column) (i j r s : ℕ)
    → i < j
    → r < s
    → key cs i r ≡ true
    → key cs i s ≡ true
    → key cs j r ≡ true
    → key cs j s ≡ true
    → 4 ≤ count cs
unfolding count
rectangle_counted [] i j r s l m a b p q = absurd (ground arith)
rectangle_counted (c ∷ cs) i zero r s l m a b p q = absurd (omega (arith, l))
rectangle_counted (c ∷ cs) zero (suc j) r s l m a b p q =
    omega (arith, two-count_ones c r s m a b, column_counted cs j r s m p q)
rectangle_counted (c ∷ cs) (suc i) (suc j) r s l m a b p q =
    omega (arith, rectangle_counted cs i j r s (omega (arith, l)) m a b p q)

ghost_pairs : (cs : List Column) → has_ghost cs ≡ true → any_pair (pack_all cs) ≡ true
unfolding has_ghost
ghost_pairs cs h = elim (Bool-cases (leb (count cs) 2)) [
  | inl e ↦ absurd (ground (arith, h, e))
  | inr e ↦ ground (arith, h, e)
]

-- A ghost is reported exactly if two different columns have two pressed keys in the same rows: the early
-- answer for at most two keys loses none.
pub has_ghost_iff : (cs : List Column) → (has_ghost cs ≡ true) ↔ HasRectangle cs
unfolding has_ghost
has_ghost_iff cs = (
  λ h. any_pair-found cs (sym (ap any_pair (pack_all_id cs)) ∙ ghost_pairs cs h),
  λ h.
      let n = rectangle_counted cs h.0 h.1 h.2 h.3 h.4 h.5 h.6 h.7 h.8 h.9 in
      let k : leb (count cs) 2 ≡ false = ground (arith, n) in
      rw (k, pack_all_id cs) (found-any_pair cs h.0 h.1 h.2 h.3 h.4 h.5 h.6 h.7 h.8 h.9),
)
