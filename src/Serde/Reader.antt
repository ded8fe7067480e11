-- ===== src/Serde/Reader.antt =====
-- The results of the serdes, the bounds-checked `Reader`, and the length frames. A message names
-- what was read. `usize` and `u64` have 64 bits.
use Prim.Native.String.{String}
use mathlib.Core.List.{append_assoc}
use rustservicelib.Base.{
  ℕ, ◌+◌, ◌-◌, ◌^◌, ◌<◌, ◌≤◌, List, ◌++◌, arith, ◌≡◌, refl, length, take, drop, ltb, if◌then◌else◌,
  length-append, take-append, drop-append, false,
}
use rustservicelib.Serde.Bytes.{to_be_bytes, from_be_bytes, length-to_be_bytes, from_to_be_bytes}

pub data Message : Type 0 where
  input_exceeds_limit : Message
  size_overflow : Message
  underflow : String → Message
  not_usize : String → Message
  exceeds_limit : String → Message
  string_exceeds_limit : Message
  bytes_exceed_limit : Message
  array_exceeds_limit : Message
  invalid_element_size : Message
  array_size_overflow : Message
  array_truncated : Message
  invalid_utf8 : Message
  invalid_scalar : Message
  key_required : Message
  counts_differ : Message
  stub_serialize : Message
  stub_deserialize : Message

pub record SerdeError : Type 0 where
  pub message : Message
  pub offset : ℕ

pub data Result {ℓ} (A : Type ℓ) : Type ℓ where
  ok : A → Result A
  err : SerdeError → Result A

abbrev pub fail {ℓ} : {A : Type ℓ} → Message → ℕ → Result A
fail m o = err (record { message = m; offset = o })

infixl 5 ◌>>=◌
abbrev pub ◌>>=◌ {ℓ κ} : {T : Type ℓ} {U : Type κ} → Result T → (T → Result U) → Result U
err e >>= next = err e
ok x >>= next = next x

-- A chain that succeeds has a first step that does.
pub bind_ok {ℓ κ} :
    {T : Type ℓ} {U : Type κ} (first : Result T) (next : T → Result U) {y : U}
    → (first >>= next) ≡ ok y
    → (x : T) × (first ≡ ok x) × (next x ≡ ok y)
bind_ok (err e) next h = cc
bind_ok (ok x) next h = (x, refl, h)

-- `usize::MAX`, and `SIZE_BYTES`.
abbrev pub usize_max : ℕ
usize_max = 2 ^ 64 - 1

abbrev pub size_bytes : ℕ
size_bytes = 8

pub record Reader : Type 0 where
  pub input : List ℕ
  pub offset : ℕ

unfoldable pub new : List ℕ → ℕ → Result Reader
new input max_total_bytes =
    if ltb max_total_bytes (length input)
    then fail input_exceeds_limit 0
    else ok (record { input = input; offset = 0 })

-- The bytes from the offset, and the reader behind them.
unfoldable pub read : ℕ → String → Reader → Result (List ℕ × Reader)
read size what r =
    if ltb usize_max (r.offset + size)
    then fail size_overflow r.offset
    else if ltb (length r.input) (r.offset + size)
    then fail (underflow what) r.offset
    else ok (take size (drop r.offset r.input), record r { offset = r.offset + size })

unfoldable pub read_size : ℕ → String → Reader → Result (ℕ × Reader)
read_size maximum what r = read size_bytes what r >>= λ t.
    (let encoded = from_be_bytes 0 t.0 in
      if ltb usize_max encoded
      then fail (not_usize what) r.offset
      else if ltb maximum encoded
      then fail (exceeds_limit what) r.offset
      else ok (encoded, t.1))

-- `put_size`, with the output returned.
unfoldable pub put_size : List ℕ → ℕ → List ℕ
put_size output size = output ++ to_be_bytes size_bytes size

-- A reader that stands behind `pre`.
abbrev pub at : List ℕ → List ℕ → Reader
at pre rest = record { input = pre ++ rest; offset = length pre }

pub read-at :
    (pre xs post : List ℕ) (what : String)
    → length (pre ++ (xs ++ post)) ≤ usize_max
    → read (length xs) what (at pre (xs ++ post))
      ≡ ok (xs, record { input = pre ++ (xs ++ post); offset = length pre + length xs })
unfolding read
read-at pre xs post what h =
    let total = length-append pre (xs ++ post) in
    let part = length-append xs post in
    let no_overflow : ltb usize_max (length pre + length xs) ≡ false =
      not_ltb usize_max (length pre + length xs) (omega (arith, h, total, part)) in
    let no_underflow : ltb (length (pre ++ (xs ++ post))) (length pre + length xs) ≡ false =
      not_ltb (length (pre ++ (xs ++ post))) (length pre + length xs)
        (omega (arith, total, part)) in
    rw (no_overflow, no_underflow) (rw (drop-append pre (xs ++ post), take-append xs post) refl)
  where
    not_ltb : (a b : ℕ) → b ≤ a → ltb a b ≡ false
    not_ltb a b le = ground arith

-- A frame is read back as the size that was put there.
pub read_size-at :
    (pre post : List ℕ) (n maximum : ℕ) (what : String)
    → length (pre ++ (to_be_bytes size_bytes n ++ post)) ≤ usize_max
    → n ≤ usize_max
    → n ≤ maximum
    → read_size maximum what (at pre (to_be_bytes size_bytes n ++ post))
      ≡ ok
          (n, record { input = pre ++ (to_be_bytes size_bytes n ++ post); offset = length pre + 8 })
unfolding read_size
read_size-at pre post n maximum what h small fits =
    let got = read-at pre (to_be_bytes size_bytes n) post what h in
    let width = length-to_be_bytes size_bytes n in
    let back = from_to_be_bytes size_bytes n (below n small) in
    let got' : read size_bytes what (at pre (to_be_bytes size_bytes n ++ post))
        ≡ ok (
          to_be_bytes size_bytes n,
          record { input = pre ++ (to_be_bytes size_bytes n ++ post); offset = length pre + 8 },
        ) =
      rw width at got in
    rw got' (rw back (rw (not_ltb usize_max n small, not_ltb maximum n fits) refl))
  where
    not_ltb : (a b : ℕ) → b ≤ a → ltb a b ≡ false
    not_ltb a b le = ground arith

    below : (n : ℕ) → n ≤ usize_max → n < 256 ^ 8
    below n le = omega (arith, le)

-- The same, with the reader behind what was read.
pub read-behind :
    (pre xs post : List ℕ) (what : String)
    → length (pre ++ (xs ++ post)) ≤ usize_max
    → read (length xs) what (at pre (xs ++ post)) ≡ ok (xs, at (pre ++ xs) post)
read-behind pre xs post what h =
    rw (append_assoc pre xs post, length-append pre xs) (read-at pre xs post what h)

pub read_size-behind :
    (pre post : List ℕ) (n maximum : ℕ) (what : String)
    → length (pre ++ (to_be_bytes size_bytes n ++ post)) ≤ usize_max
    → n ≤ usize_max
    → n ≤ maximum
    → read_size maximum what (at pre (to_be_bytes size_bytes n ++ post))
      ≡ ok (n, at (pre ++ to_be_bytes size_bytes n) post)
read_size-behind pre post n maximum what h small fits =
    rw (append_assoc pre (to_be_bytes size_bytes n) post) (
      rw (length-append pre (to_be_bytes size_bytes n))
        (rw (length-to_be_bytes size_bytes n) (read_size-at pre post n maximum what h small fits)))
