-- ===== src/Battery/Buffer/Layout.antt =====
-- Fields that stand one behind the other.
use embedded_services.Base.{
  dec_le, ℕ, zero, suc, ◌+◌, ◌*◌, ◌/◌, ◌%◌, ◌^◌, ◌≤◌, ◌<◌, ◌≡◌, refl, ap, sym, subst, true, false,
  List, [], ◌∷◌, ◌++◌, ok, err, length, length-append, arith, ltb,
}
use embedded_services.Mctp.Encoding.{skip}
use embedded_services.Mctp.Encoding.Roundtrip.{skip-append, append_assoc}
use embedded_services.Mctp.Sending.Train.{length-skip}
use embedded_services.Mctp.Serial.{take}
use embedded_services.Battery.Buffer.{
  buffer_too_small, safe_put_bytes, put_all, safe_get_bytes, safe_get_u8, safe_get_dword, dword,
}

-- Every field begins where the one before it ends.
abbrev pub IsRow : ℕ → List (ℕ × List ℕ) → Type 0
IsRow index [] = Unit
IsRow index (f ∷ fs) = (f.0 ≡ index) × IsRow (index + length f.1) fs

abbrev pub row_bytes : List (ℕ × List ℕ) → List ℕ
row_bytes [] = []
row_bytes (f ∷ fs) = f.1 ++ row_bytes fs

pub take-append : (xs ys : List ℕ) → take (length xs) (xs ++ ys) ≡ xs
unfolding take
take-append [] ys = refl
take-append (x ∷ xs) ys = ap (λ l. x ∷ l) (take-append xs ys)

pub skip_more : (n : ℕ) (xs ys : List ℕ) → skip (length xs + n) (xs ++ ys) ≡ skip n ys
unfolding skip
skip_more n [] ys = let e : 0 + n ≡ n = omega arith in rw e refl
skip_more n (x ∷ xs) ys =
    let e : suc (length xs) + n ≡ suc (length xs + n) = omega arith in rw e (skip_more n xs ys)

put_fits :
    (pre bytes old : List ℕ)
    → length bytes ≤ length old
    → safe_put_bytes (length pre) bytes (pre ++ old)
      ≡ (ok (length bytes), (pre ++ bytes) ++ skip (length bytes) old)
unfolding safe_put_bytes
put_fits pre bytes old h =
    let k : ltb (length (pre ++ old)) (length pre + length bytes) ≡ false =
      ground (arith, h, length-append pre old) in
    rw
      (
        k,
        take-append pre old,
        skip_more (length bytes) pre old,
        append_assoc pre bytes (skip (length bytes) old),
      )
      refl

put_refused :
    (pre bytes old : List ℕ)
    → length old < length bytes
    → safe_put_bytes (length pre) bytes (pre ++ old) ≡ (err buffer_too_small, pre ++ old)
unfolding safe_put_bytes
put_refused pre bytes old h =
    let k : ltb (length (pre ++ old)) (length pre + length bytes) ≡ true =
      ground (arith, h, length-append pre old) in
    rw k refl

pub skip-skip : (n m : ℕ) (xs : List ℕ) → skip m (skip n xs) ≡ skip (n + m) xs
unfolding skip
skip-skip zero m xs = let e : zero + m ≡ m = omega arith in rw e refl
skip-skip (suc n) zero [] = let e : suc n + 0 ≡ suc n = omega arith in rw e refl
skip-skip (suc n) (suc m) [] = let e : suc n + suc m ≡ suc (n + suc m) = omega arith in rw e refl
skip-skip (suc n) m (x ∷ xs) =
    let e : suc n + m ≡ suc (n + m) = omega arith in rw e (skip-skip n m xs)

pub put_all-row :
    (fs : List (ℕ × List ℕ)) (pre old : List ℕ)
    → IsRow (length pre) fs
    → length (row_bytes fs) ≤ length old
    → put_all fs (pre ++ old)
      ≡ (ok (length (row_bytes fs)), pre ++ (row_bytes fs ++ skip (length (row_bytes fs)) old))
unfolding put_all skip
put_all-row [] pre old r h = refl
put_all-row (f ∷ fs) pre old r h =
    let n = length-append f.1 (row_bytes fs) in
    let m = length-append pre f.1 in
    let s = length-skip (length f.1) old (omega (arith, h, n)) in
    let row = subst (λ k. IsRow k fs) (sym m) r.1 in
    let rest = put_all-row fs (pre ++ f.1) (skip (length f.1) old) row (omega (arith, h, n, s)) in
    rw
      (
        r.0,
        put_fits pre f.1 old (omega (arith, h, n)),
        rest,
        n,
        skip-skip (length f.1) (length (row_bytes fs)) old,
        append_assoc pre f.1 (row_bytes fs ++ skip (length f.1 + length (row_bytes fs)) old),
        append_assoc f.1 (row_bytes fs) (skip (length f.1 + length (row_bytes fs)) old),
      )
      refl

pub put_all-refused :
    (fs : List (ℕ × List ℕ)) (pre old : List ℕ)
    → IsRow (length pre) fs
    → length old < length (row_bytes fs)
    → (put_all fs (pre ++ old)).0 ≡ err buffer_too_small
unfolding put_all
put_all-refused [] pre old r h = absurd (omega (arith, h))
put_all-refused (f ∷ fs) pre old r h = elim (dec_le (length f.1) (length old)) [
  | yes k ↦
      let n = length-append f.1 (row_bytes fs) in
      let s = length-skip (length f.1) old k in
      let row = subst (λ k. IsRow k fs) (sym (length-append pre f.1)) r.1 in
      let rest =
        put_all-refused fs (pre ++ f.1) (skip (length f.1) old) row (omega (arith, h, n, s)) in
      rw (r.0, put_fits pre f.1 old k, rest) refl
  | no k ↦ rw (r.0, put_refused pre f.1 old (omega (arith, k))) refl
]

-- What is read at an offset, where it stands there.
pub safe_get_bytes-row :
    (pre bytes post : List ℕ) (index : ℕ)
    → index ≡ length pre
    → safe_get_bytes (length bytes) (pre ++ (bytes ++ post)) index ≡ ok bytes
unfolding safe_get_bytes
safe_get_bytes-row pre bytes post index e =
    let n = length-append pre (bytes ++ post) in
    let m = length-append bytes post in
    let k : ltb (length (pre ++ (bytes ++ post))) (length pre + length bytes) ≡ false =
      ground (arith, n, m) in
    rw (e, k, skip-append pre (bytes ++ post), take-append bytes post) refl

pub safe_get_dword-row :
    (pre post : List ℕ) (index v : ℕ)
    → index ≡ length pre
    → v < 2 ^ 32
    → safe_get_dword (pre ++ (dword v ++ post)) index ≡ ok v
unfolding safe_get_dword
safe_get_dword-row pre post index v e h =
    let l : v % 256 + v / 256 % 256 * 256 + v / 65536 % 256 * 65536 + v / 16777216 % 256 * 16777216
        ≡ v =
      omega (arith, h) in
    rw (safe_get_bytes-row pre (dword v) post index e, l) refl

pub safe_get_u8-row : (b : ℕ) (post : List ℕ) → safe_get_u8 (b ∷ post) 0 ≡ ok b
unfolding safe_get_u8
safe_get_u8-row b post = rw (safe_get_bytes-row [] (b ∷ []) post 0 refl) refl

-- Every field of a row is read at its offset.
abbrev pub Reads : List ℕ → List (ℕ × List ℕ) → Type 0
Reads buffer [] = Unit
Reads buffer (f ∷ fs) = (safe_get_bytes (length f.1) buffer f.0 ≡ ok f.1) × Reads buffer fs

pub row-Reads :
    (fs : List (ℕ × List ℕ)) (pre more : List ℕ)
    → IsRow (length pre) fs
    → Reads (pre ++ (row_bytes fs ++ more)) fs
row-Reads [] pre more r = tt
row-Reads (f ∷ fs) pre more r =
    let row = subst (λ k. IsRow k fs) (sym (length-append pre f.1)) r.1 in
    let e = append_assoc f.1 (row_bytes fs) more in
    let g = append_assoc pre f.1 (row_bytes fs ++ more) in
    subst (λ v. Reads v (f ∷ fs)) (ap (λ v. pre ++ v) (sym e))
      (
        safe_get_bytes-row pre f.1 (row_bytes fs ++ more) f.0 r.0,
        subst (λ v. Reads v fs) g (row-Reads fs (pre ++ f.1) more row),
      )

pub safe_get_dword-read :
    (buffer : List ℕ) (index v : ℕ)
    → safe_get_bytes 4 buffer index ≡ ok (dword v)
    → v < 2 ^ 32
    → safe_get_dword buffer index ≡ ok v
unfolding safe_get_dword
safe_get_dword-read buffer index v e h =
    let l : v % 256 + v / 256 % 256 * 256 + v / 65536 % 256 * 65536 + v / 16777216 % 256 * 16777216
        ≡ v =
      omega (arith, h) in
    rw (e, l) refl
