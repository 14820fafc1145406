-- ===== src/Relay/Item/Cut.antt =====
-- Parts of a list of bytes, and get_range of embedded-service/src/relay/hid.rs on them.
use embedded_services.Base.{
  ℕ, zero, suc, ◌+◌, ◌-◌, ◌≤◌, ◌<◌, ◌≡◌, refl, ap, true, false, none, some, List, [], ◌∷◌, ◌++◌,
  length, leb, get_elem?, arith, inl, inr, Bool-cases,
}
use embedded_services.Mctp.Encoding.{skip}
use embedded_services.Mctp.Serial.{take}
use embedded_services.Relay.Item.{get_range?}

pub take-skip : (n : ℕ) (xs : List ℕ) → take n xs ++ skip n xs ≡ xs
unfolding take skip
take-skip zero xs = refl
take-skip (suc n) [] = refl
take-skip (suc n) (x ∷ xs) = ap (λ l. x ∷ l) (take-skip n xs)

pub take-sum : (n m : ℕ) (xs : List ℕ) → take (n + m) xs ≡ take n xs ++ take m (skip n xs)
unfolding take skip
take-sum zero m xs = let e : zero + m ≡ m = omega arith in rw e refl
take-sum (suc n) zero [] = let e : suc n + 0 ≡ suc n = omega arith in rw e refl
take-sum (suc n) (suc m) [] = let e : suc n + suc m ≡ suc (n + suc m) = omega arith in rw e refl
take-sum (suc n) m (x ∷ xs) =
    let e : suc n + m ≡ suc (n + m) = omega arith in rw e (ap (λ l. x ∷ l) (take-sum n m xs))

pub skip_all : (xs : List ℕ) → skip (length xs) xs ≡ []
unfolding skip
skip_all [] = refl
skip_all (x ∷ xs) = skip_all xs

pub skip-elem :
    (n : ℕ) (xs : List ℕ) (b : ℕ) → get_elem? xs n ≡ some b → skip n xs ≡ b ∷ skip (suc n) xs
unfolding skip
skip-elem n [] b h = absurd (ground (arith, h))
skip-elem zero (x ∷ xs) b h = let e : x ≡ b = ground (arith, h) in rw e refl
skip-elem (suc n) (x ∷ xs) b h = skip-elem n xs b h

pub elem-lt : (xs : List ℕ) (n b : ℕ) → get_elem? xs n ≡ some b → n < length xs
elem-lt [] n b h = absurd (ground (arith, h))
elem-lt (x ∷ xs) zero b h = omega arith
elem-lt (x ∷ xs) (suc n) b h = omega (arith, elem-lt xs n b h)

pub elem-none : (xs : List ℕ) → get_elem? xs 0 ≡ none → length xs ≡ 0
elem-none [] h = refl
elem-none (x ∷ xs) h = absurd (ground (arith, h))

pub elem-skip : (n : ℕ) (xs : List ℕ) → get_elem? (skip (suc n) xs) 0 ≡ get_elem? xs (n + 1)
unfolding skip
elem-skip n [] = refl
elem-skip zero (x ∷ xs) = refl
elem-skip (suc n) (x ∷ xs) = let e : suc n + 1 ≡ suc (n + 1) = omega arith in rw e (elem-skip n xs)

pub head-take :
    (k : ℕ) (xs : List ℕ) (n : ℕ) → get_elem? xs 0 ≡ some n → get_elem? (take (suc k) xs) 0 ≡ some n
unfolding take
head-take k [] n h = h
head-take k (x ∷ xs) n h = h

pub elem_exists : (n : ℕ) (xs : List ℕ) → n < length xs → (b : ℕ) × (get_elem? xs n ≡ some b)
elem_exists n [] h = absurd (omega (arith, h))
elem_exists zero (x ∷ xs) h = (x, refl)
elem_exists (suc n) (x ∷ xs) h = elem_exists n xs (omega (arith, h))

pub get_range?-inside :
    (from len : ℕ) (bs : List ℕ)
    → from + len ≤ length bs
    → get_range? from (from + len) bs ≡ some (take len (skip from bs))
unfolding get_range?
get_range?-inside from len bs h =
    let a : leb from (from + len) ≡ true = ground arith in
    let b : leb (from + len) (length bs) ≡ true = ground (arith, h) in
    let e : from + len - from ≡ len = omega arith in rw (a, b, e) refl

pub get_range?-outside :
    (from until : ℕ) (bs : List ℕ) → length bs < until → get_range? from until bs ≡ none
unfolding get_range?
get_range?-outside from until bs h = elim (Bool-cases (leb from until)) [
  | inl e ↦ let b : leb until (length bs) ≡ false = ground (arith, h) in rw (e, b) refl
  | inr e ↦ rw e refl
]
