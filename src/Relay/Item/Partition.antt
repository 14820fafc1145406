-- ===== src/Relay/Item/Partition.antt =====
-- The items of a descriptor are its bytes, cut one behind the other.
use embedded_services.Base.{
  subst, ◌%◌, dec_le, ℕ, zero, suc, ◌+◌, ◌≤◌, ◌<◌, ◌≡◌, refl, sym, ◌∙◌, true, false, Option, none,
  some, List, [], ◌∷◌, ◌++◌, ok, err, length, leb, get_elem?, arith, inl, inr, Bool-cases,
  if◌then◌else◌,
}
use embedded_services.Mctp.Encoding.{skip}
use embedded_services.Mctp.Serial.{take}
use embedded_services.Mctp.Sending.Train.{length-skip, length-take}
use embedded_services.Battery.Buffer.Layout.{skip-skip}
use embedded_services.Relay.Item.{
  data_bytes, truncated_item, DescriptorItem, DescriptorItems, Yield, is_long_item,
  short_item_data_size, get_range?, stop, sized_item, long_item, next_at, next, yielded, collect,
  items,
}
use embedded_services.Relay.Item.Cut.{
  take-skip, take-sum, skip_all, skip-elem, elem-lt, elem-none, elem-skip, head-take, elem_exists,
  get_range?-inside, get_range?-outside,
}

-- The number of data bytes that the size field of a short header stands for.
abbrev pub short_length : ℕ → ℕ
short_length zero = 0
short_length (suc zero) = 1
short_length (suc (suc zero)) = 2
short_length (suc (suc (suc n))) = 4

-- The number of data bytes is the byte behind the header of a long item, and stands in the header of a short
-- one.
abbrev pub HasLength : ℕ → List ℕ → ℕ → Type 0
HasLength header behind n =
    if is_long_item header then get_elem? behind 0 ≡ some n else n ≡ short_length (header % 4)

abbrev pub or_zero : Option ℕ → ℕ
or_zero none = 0
or_zero (some n) = n

-- The number of bytes that must follow a header.
abbrev pub needed : ℕ → List ℕ → ℕ
needed header behind =
    if is_long_item header then 2 + or_zero (get_elem? behind 0) else short_length (header % 4)

-- Bytes that start an item and end before it does.
abbrev pub IsCut : List ℕ → Type 0
IsCut rest =
    (header : ℕ) × (behind : List ℕ) × (rest ≡ header ∷ behind)
    × (length behind < needed header behind)

-- An item is its header byte, two more bytes for a long one, and its data.
abbrev pub IsItem : DescriptorItem → Type 0
IsItem i =
    (pre : List ℕ) × (i.raw ≡ i.header ∷ (pre ++ i.payload))
    × (length pre ≡ (if is_long_item i.header then 2 else 0))
    × HasLength i.header pre (length i.payload)

-- Some bytes cut into items, of which the last one may be cut off.
abbrev pub IsPartition : List ℕ → List Yield → Type 0
IsPartition rest [] = rest ≡ []
IsPartition rest (ok i ∷ ys) =
    IsItem i × ((more : List ℕ) × (rest ≡ i.raw ++ more) × IsPartition more ys)
IsPartition rest (err e ∷ ys) = (e ≡ truncated_item) × IsCut rest × (ys ≡ [])

data_bytes-length : (size : ℕ) → size < 4 → data_bytes size ≡ short_length size
unfolding data_bytes
data_bytes-length zero h = refl
data_bytes-length (suc zero) h = refl
data_bytes-length (suc (suc zero)) h = refl
data_bytes-length (suc (suc (suc zero))) h = refl
data_bytes-length (suc (suc (suc (suc n)))) h = absurd (omega (arith, h))

short_item_data_size-length : (header : ℕ) → short_item_data_size header ≡ short_length (header % 4)
unfolding short_item_data_size
short_item_data_size-length header = data_bytes-length (header % 4) (omega arith)

abbrev at : List ℕ → ℕ → DescriptorItems
at bytes position = record { bytes = bytes; pos = position; is_done = false }

-- Nothing comes after an error.
collect_done : (fuel : ℕ) (it : DescriptorItems) → it.is_done ≡ true → collect fuel it ≡ []
unfolding collect next
collect_done zero it h = refl
collect_done (suc fuel) it h = rw h refl

take_head :
    (h n header : ℕ) (tail : List ℕ)
    → take (suc h) (header ∷ tail) ++ take n (skip (suc h) (header ∷ tail))
      ≡ header ∷ (take h tail ++ take n (skip (suc h) (header ∷ tail)))
unfolding take
take_head h n header tail = refl

module _ (bytes : List ℕ) (fuel : ℕ) where
  -- What is known of the rounds after this one.
  abbrev Rest : Type 0
  Rest =
      (position : ℕ)
      → position ≤ length bytes
      → length bytes < fuel + position
      → IsPartition (skip position bytes) (collect fuel (at bytes position))

  abbrev seen : Option Yield × DescriptorItems → List Yield
  seen r = yielded r.0 (collect fuel r.1)

  stop-IsPartition :
      (position : ℕ)
      → IsCut (skip position bytes)
      → IsPartition
          (skip position bytes)
          (seen (stop (some (err truncated_item)) (at bytes position)))
  stop-IsPartition position cut =
      (refl, cut, collect_done fuel (record (at bytes position) { is_done = true }) refl)

  sized_item-IsPartition :
      (position header h n : ℕ)
      → get_elem? bytes position ≡ some header
      → h ≡ (if is_long_item header then 2 else 0)
      → HasLength header (take h (skip (suc position) bytes)) n
      → h + n ≡ needed header (skip (suc position) bytes)
      → length bytes ≤ fuel + position
      → Rest
      → IsPartition (skip position bytes) (seen (sized_item (at bytes position) header (suc h) n))
  unfolding sized_item
  sized_item-IsPartition position header h n e l q m f rest =
      elim (dec_le (position + suc h + n) (length bytes)) [
        | yes k ↦
            let tail = skip (suc position) bytes in
            let here = skip-elem position bytes header e in
            let s1 : position + suc h + n ≡ position + (suc h + n) = omega arith in
            let payload = get_range?-inside (position + suc h) n bytes k in
            let raw : get_range? position (position + suc h + n) bytes
                ≡ some (take (suc h + n) (skip position bytes)) =
              rw s1 (get_range?-inside position (suc h + n) bytes (omega (arith, k))) in
            let i : DescriptorItem = record {
              header = header;
              payload = take n (skip (position + suc h) bytes);
              raw = take (suc h + n) (skip position bytes);
            } in
            let cut : i.raw ≡ header ∷ (take h tail ++ i.payload) =
              take-sum (suc h) n (skip position bytes)
              ∙ rw (sym (skip-skip position (suc h) bytes)) (rw here (take_head h n header tail)) in
            let long = length-skip (suc position) bytes (omega (arith, k)) in
            let behind = length-skip (position + suc h) bytes (omega (arith, k)) in
            let count = length-take n (skip (position + suc h) bytes) (omega (arith, k, behind)) in
            let all : skip position bytes ≡ i.raw ++ skip (position + suc h + n) bytes =
              sym (take-skip (suc h + n) (skip position bytes))
              ∙ rw (s1, sym (skip-skip position (suc h + n) bytes)) refl in
            rw (payload, raw)
              (
                (
                  take h tail,
                  cut,
                  length-take h tail (omega (arith, k, long)) ∙ l,
                  subst (λ v. HasLength header (take h tail) v) (sym count) q,
                ),
                (
                  skip (position + suc h + n) bytes,
                  all,
                  rest (position + suc h + n) k (omega (arith, f)),
                ),
              )
        | no k ↦
            let within = elem-lt bytes position header e in
            let long = length-skip (suc position) bytes (omega (arith, within)) in
            rw
              (
                get_range?-outside position (position + suc h + n) bytes (omega (arith, k)),
                get_range?-outside (position + suc h) (position + suc h + n) bytes
                    (omega (arith, k)),
              )
              (stop-IsPartition position (
                header,
                skip (suc position) bytes,
                skip-elem position bytes header e,
                omega (arith, k, long, m),
              ))
      ]

  long_item-IsPartition :
      (position header : ℕ) (size : Option ℕ)
      → get_elem? bytes (position + 1) ≡ size
      → get_elem? bytes position ≡ some header
      → is_long_item header ≡ true
      → length bytes ≤ fuel + position
      → Rest
      → IsPartition (skip position bytes) (seen (long_item (at bytes position) header size))
  unfolding long_item
  long_item-IsPartition position header (some n) z e l f rest =
      let next = elem-skip position bytes ∙ z in
      let size = head-take 1 (skip (suc position) bytes) n next in
      sized_item-IsPartition position header 2 n e (rw l refl) (rw l size) (rw (l, next) refl) f
        rest
  long_item-IsPartition position header none z e l f rest =
      let next = elem-skip position bytes ∙ z in
      let empty : length (skip (suc position) bytes) ≡ 0 =
        elem-none (skip (suc position) bytes) next in
      stop-IsPartition position (
        header,
        skip (suc position) bytes,
        skip-elem position bytes header e,
        rw (l, next, empty) (omega arith),
      )

  next_at-IsPartition :
      (position header : ℕ)
      → get_elem? bytes position ≡ some header
      → length bytes ≤ fuel + position
      → Rest
      → IsPartition (skip position bytes) (seen (next_at (at bytes position) (some header)))
  unfolding next_at
  next_at-IsPartition position header e f rest = elim (Bool-cases (is_long_item header)) [
    | inl l ↦
        rw l
          (long_item-IsPartition position header (get_elem? bytes (position + 1)) refl e l f rest)
    | inr l ↦
        let size = short_item_data_size-length header in
        rw l (
          sized_item-IsPartition position header 0 (short_item_data_size header) e (rw l refl)
            (rw l size) (rw l (omega (arith, size))) f rest)
  ]

collect-IsPartition :
    (bytes : List ℕ) (fuel position : ℕ)
    → position ≤ length bytes
    → length bytes < fuel + position
    → IsPartition (skip position bytes) (collect fuel (at bytes position))
unfolding collect next
collect-IsPartition bytes zero position h f = absurd (omega (arith, h, f))
collect-IsPartition bytes (suc fuel) position h f = elim (dec_le (length bytes) position) [
  | yes k ↦
      let a : leb (length bytes) position ≡ true = ground (arith, k) in
      let e : position ≡ length bytes = omega (arith, h, k) in rw a (rw e (skip_all bytes))
  | no k ↦
      let a : leb (length bytes) position ≡ false = ground (arith, k) in
      let b = elem_exists position bytes (omega (arith, k)) in
      rw (a, b.1)
        (next_at-IsPartition bytes fuel position b.0 b.1 (omega (arith, f))
          (λ p hp fp. collect-IsPartition bytes fuel p hp fp))
]

-- The items of a descriptor are its bytes cut one behind the other: each is a header, the two more bytes of
-- a long item, and as many data bytes as the byte behind a long header or the size field of a short one says,
-- of which the value 3 stands for four bytes. A truncated item is reported exactly where bytes are left that
-- end before the item that they start does, once, and last.
pub items-IsPartition : (bytes : List ℕ) → IsPartition bytes (items bytes)
unfolding items skip
items-IsPartition bytes =
    collect-IsPartition bytes (suc (length bytes)) 0 (omega arith) (omega arith)
