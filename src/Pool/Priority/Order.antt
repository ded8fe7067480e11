-- ===== src/Pool/Priority/Order.antt =====
-- The order of the keys, and what an insertion and a removal do to an ordered map.
use rustservicelib.Base.{
  total, ℕ, List, [], ◌∷◌, none, some, true, false, ◌==◌, nat_eq, if◌then◌else◌, lookup, remove,
  arith, length, ◌+◌, IsMap, ◌≡◌, refl, Bool-cases, inl, inr,
}
use rustservicelib.Base.Int.{ℤ, pos, negsuc, ltb_ℤ, int_eq}
use rustservicelib.Pool.Priority.{Key, key_eq, key_lt, ordered_insert}

ltb_ℤ_trans : (a b c : ℤ) → ltb_ℤ a b ≡ true → ltb_ℤ b c ≡ true → ltb_ℤ a c ≡ true
ltb_ℤ_trans (pos a) (pos b) (pos c) h k = ground arith
ltb_ℤ_trans (negsuc a) (negsuc b) (negsuc c) h k = ground arith
ltb_ℤ_trans a b c h k = ground arith

ltb_ℤ_total : (a b : ℤ) → (ltb_ℤ a b ≡ false) → (a == b) ≡ false → ltb_ℤ b a ≡ true
ltb_ℤ_total (pos a) (pos b) h k = ground arith
ltb_ℤ_total a b h k = ground arith

ltb_ℤ_irrefl : (a : ℤ) → ltb_ℤ a a ≡ false
ltb_ℤ_irrefl (pos a) = ground arith
ltb_ℤ_irrefl (negsuc a) = ground arith

pub key_lt_trans : (a b c : Key) → key_lt a b ≡ true → key_lt b c ≡ true → key_lt a c ≡ true
unfolding key_lt
key_lt_trans a b c h k = ground (
  arith,
  ltb_ℤ_trans a.priority b.priority c.priority,
  int_eq.beq_iff a.priority b.priority,
  int_eq.beq_iff b.priority c.priority,
  int_eq.beq_iff a.priority c.priority,
)

pub key_lt_irrefl : (a : Key) → key_lt a a ≡ false
unfolding key_lt
key_lt_irrefl a = ground (arith, ltb_ℤ_irrefl a.priority)

pub key_lt_total : (a b : Key) → (a == b) ≡ false → key_lt a b ≡ false → key_lt b a ≡ true
unfolding key_lt
key_lt_total a b h k = ground (
  arith,
  ltb_ℤ_total a.priority b.priority,
  int_eq.beq_iff a.priority b.priority,
  int_eq.beq_iff b.priority a.priority,
)

-- No key lies below `i32::MIN` with the same id.
pub key_lt_min :
    (a : Key) (i : ℕ) (p : ℤ)
    → ltb_ℤ p a.priority ≡ true
    → key_lt (record { priority = p; id = i }) a ≡ true
unfolding key_lt
key_lt_min a i p h = ground arith

module _ {ℓ} {E : Type ℓ} where
  abbrev pub Above : Key → List (Key × E) → Type 0
  Above k [] = Unit
  Above k ((j, w) ∷ m) = (key_lt k j ≡ true) × Above k m

  abbrev pub IsOrdered : List (Key × E) → Type 0
  IsOrdered [] = Unit
  IsOrdered ((k, v) ∷ m) = Above k m × IsOrdered m

  Above-trans : (a b : Key) (m : List (Key × E)) → key_lt a b ≡ true → Above b m → Above a m
  Above-trans a b [] h t = tt
  Above-trans a b ((j, w) ∷ m) h t = (key_lt_trans a b j h t.0, Above-trans a b m h t.1)

  Above-insert :
      (a k : Key) (v : E) (m : List (Key × E))
      → key_lt a k ≡ true
      → Above a m
      → Above a (ordered_insert k v m)
  unfolding ordered_insert
  Above-insert a k v [] h t = (h, tt)
  Above-insert a k v ((j, w) ∷ m) h t =
      ground (arith, key_eq.beq_iff k j, Above-insert a k v m h t.1)

  Above-remove : (a k : Key) (m : List (Key × E)) → Above a m → Above a (remove k m)
  unfolding remove
  Above-remove a k [] t = tt
  Above-remove a k ((j, w) ∷ m) t = ground (arith, Above-remove a k m t.1)

  pub insert-IsOrdered :
      (k : Key) (v : E) (m : List (Key × E)) → IsOrdered m → IsOrdered (ordered_insert k v m)
  unfolding ordered_insert
  insert-IsOrdered k v [] h = (tt, tt)
  insert-IsOrdered k v ((j, w) ∷ m) h = elim (Bool-cases (k == j)) [
    | inl same ↦ let e : j ≡ k = ground (arith, key_eq.beq_iff k j) in rw same (rw (← e) h)
    | inr other ↦ elim (Bool-cases (key_lt k j)) [
      | inl below ↦ rw (other, below) ((below, Above-trans k j m below h.0), h)
      | inr above ↦
          rw (other, above)
            (Above-insert j k v m (key_lt_total k j other above) h.0, insert-IsOrdered k v m h.1)
    ]
  ]

  pub remove-IsOrdered : (k : Key) (m : List (Key × E)) → IsOrdered m → IsOrdered (remove k m)
  unfolding remove
  remove-IsOrdered k [] h = tt
  remove-IsOrdered k ((j, w) ∷ m) h =
      ground (arith, Above-remove j k m h.0, remove-IsOrdered k m h.1)

  pub lookup-ordered_insert :
      (k j : Key) (v : E) (m : List (Key × E))
      → lookup j (ordered_insert k v m) ≡ (if k == j then some v else lookup j m)
  unfolding ordered_insert lookup
  lookup-ordered_insert k j v [] = refl
  lookup-ordered_insert k j v ((i, w) ∷ m) = elim (Bool-cases (k == i)) [
    | inl same ↦ let e : i ≡ k = ground (arith, key_eq.beq_iff k i) in rw same (rw e (ground arith))
    | inr other ↦ elim (Bool-cases (key_lt k i)) [
      | inl below ↦ rw (other, below) refl
      | inr above ↦
          rw (other, above)
            (ground (
              arith,
              key_eq.beq_iff k j,
              key_eq.beq_iff k i,
              key_eq.beq_iff i j,
              lookup-ordered_insert k j v m,
            ))
    ]
  ]

  -- Every key that is found lies above the bound.
  pub Above-lookup :
      (a k : Key) (e : E) (m : List (Key × E)) → Above a m → lookup k m ≡ some e → key_lt a k ≡ true
  unfolding lookup
  Above-lookup a k e [] t h = cc
  Above-lookup a k e ((j, w) ∷ m) t h = ground (arith, key_eq.beq_iff j k, Above-lookup a k e m t.1)

  pub length-ordered_insert_new :
      (k : Key) (v : E) (m : List (Key × E))
      → lookup k m ≡ none
      → length (ordered_insert k v m) ≡ length m + 1
  unfolding ordered_insert lookup
  length-ordered_insert_new k v [] h = refl
  length-ordered_insert_new k v ((j, w) ∷ m) h = elim (Bool-cases (j == k)) [
    | inl same ↦ absurd (ground (arith, key_eq.beq_iff j k))
    | inr other ↦
        let other' : (k == j) ≡ false = ground (arith, key_eq.beq_iff j k, key_eq.beq_iff k j) in
        let missing : lookup k m ≡ none = ground arith in
        elim (Bool-cases (key_lt k j)) [
          | inl below ↦ rw (other', below) (omega arith)
          | inr above ↦ rw (other', above) (omega (arith, length-ordered_insert_new k v m missing))
        ]
  ]

  pub ordered_insert_new-total :
      (g : Key × E → ℕ) (k : Key) (v : E) (m : List (Key × E))
      → lookup k m ≡ none
      → total g (ordered_insert k v m) ≡ g (k, v) + total g m
  unfolding ordered_insert lookup
  ordered_insert_new-total g k v [] h = refl
  ordered_insert_new-total g k v ((j, w) ∷ m) h = elim (Bool-cases (j == k)) [
    | inl same ↦ absurd (ground (arith, key_eq.beq_iff j k))
    | inr other ↦
        let other' : (k == j) ≡ false = ground (arith, key_eq.beq_iff j k, key_eq.beq_iff k j) in
        let missing : lookup k m ≡ none = ground arith in
        elim (Bool-cases (key_lt k j)) [
          | inl below ↦ rw (other', below) (omega arith)
          | inr above ↦ rw (other', above) (omega (arith, ordered_insert_new-total g k v m missing))
        ]
  ]

  Above-missing : (k : Key) (m : List (Key × E)) → Above k m → lookup k m ≡ none
  unfolding lookup
  Above-missing k [] h = refl
  Above-missing k ((j, w) ∷ m) h =
      ground (arith, key_eq.beq_iff j k, key_lt_irrefl k, Above-missing k m h.1)

  pub IsOrdered-IsMap : (m : List (Key × E)) → IsOrdered m → IsMap m
  IsOrdered-IsMap [] h = tt
  IsOrdered-IsMap ((k, v) ∷ m) h = (Above-missing k m h.0, IsOrdered-IsMap m h.1)
