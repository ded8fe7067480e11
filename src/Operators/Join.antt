-- ===== src/Operators/Join.antt =====
-- src/operators/join.rs: the join of two streams over the storage of its groups. A value of unknown type
-- (`DynValue`) is one of the left or of the right stream. `none` is a panic of a downcast.
use rustservicelib.Base.{
  ltb, length, ◌<◌, ◌⊎◌, one_of, ℕ, zero, suc, some_eq, map, List, [], ◌∷◌, Option, none, some,
  Bool, true, false, not, ◌&&◌, ◌==◌, Eq, nat_eq, get_elem?, All, total, ◌>>=◌, if◌then◌else◌, ◌≡◌,
  refl, ◌∙◌, ap, inl, inr, Bool-cases, arith,
}
use rustservicelib.Store.Join.{MessageContext, Entry, Call, Storage, Seen, is_empty, new}
use rustservicelib.Store.Join.Steps.{Step, starts, run}
use rustservicelib.Store.Join.Values.{count_at, list_at, or_empty}
use rustservicelib.Store.Join.Groups.{from_calls, values_conserved, has_entered}

pub data JoinType : Type 0 where
  inner : JoinType
  left : JoinType
  right : JoinType
  outer : JoinType
  undefined : JoinType

pub data DynValue {ℓ κ} (L : Type ℓ) (R : Type κ) : Type (ℓ ⊔ κ) where
  of_left : L → DynValue L R
  of_right : R → DynValue L R

-- `values.get(index).is_some_and(|values| !values.is_empty())`.
unfoldable pub has_values {ℓ} : {A : Type ℓ} → ℕ → List (List A) → Bool
has_values index values = elim (get_elem? values index) [ none ↦ false | some l ↦ not (is_empty l) ]

unfoldable pub can_call {ℓ} : {A : Type ℓ} → JoinType → List (List A) → Bool
can_call inner values = has_values 0 values && has_values 1 values
can_call left values = has_values 0 values
can_call right values = has_values 1 values
can_call outer values = true
can_call undefined values = false

module _ {ℓ κ} {L : Type ℓ} {R : Type κ} where
  abbrev left_of : DynValue L R → Option L
  left_of (of_left l) = some l
  left_of (of_right r) = none

  abbrev right_of : DynValue L R → Option R
  right_of (of_left l) = none
  right_of (of_right r) = some r

  abbrev is_left : DynValue L R → Bool
  is_left (of_left l) = true
  is_left (of_right r) = false

  abbrev is_right : DynValue L R → Bool
  is_right (of_left l) = false
  is_right (of_right r) = true

  -- The left stream has the index 0, and the right one the index 1.
  abbrev pub IsTypedAt : ℕ → DynValue L R → Type 0
  IsTypedAt index (of_left l) = index ≡ 0
  IsTypedAt index (of_right r) = index ≡ 1

-- The downcasts of all values of a list.
unfoldable pub downcast_all {ℓ κ} :
    {A : Type ℓ} {B : Type κ} → (A → Option B) → List A → Option (List B)
downcast_all cast [] = some []
downcast_all cast (x ∷ xs) =
    let rest = downcast_all cast xs in cast x >>= λ b. rest >>= λ bs. some (b ∷ bs)

unfoldable pub downcast_values {ℓ κ} :
    {A : Type ℓ} {B : Type κ} → (A → Option B) → List (List A) → ℕ → Option (List B)
downcast_values cast values index = downcast_all cast (list_at index values)

-- `JoinFunction::join`, a parameter: what the business function answers.
abbrev pub JoinFunction {ℓ κ μ} : (K : Type μ) (L : Type ℓ) (R : Type κ) → Type (ℓ ⊔ κ ⊔ μ)
JoinFunction K L R = MessageContext → K → List L → List R → Bool

module _ {ℓ κ μ} {K : Type μ} {L : Type ℓ} {R : Type κ} where
  unfoldable pub call_function :
      JoinType → JoinFunction K L R → MessageContext → K → List (List (DynValue L R)) → Option Bool
  call_function join_type join context key values =
      if not (can_call join_type values)
      then some false
      else downcast_values left_of values 0 >>= λ ls.
          downcast_values right_of values 1 >>= λ rs. some (join context key ls rs)

  -- `consume` of the left and of the right stream: a call of the storage, with what it reads of the
  -- configuration.
  abbrev pub consume_left : MessageContext → K → L → ℕ → ℕ → Bool → Step K (DynValue L R)
  consume_left context key value callback ttl renew =
      starts context key 0 (of_left value) callback ttl renew

  abbrev pub consume_right : MessageContext → K → R → ℕ → ℕ → Bool → Step K (DynValue L R)
  consume_right context key value callback ttl renew =
      starts context key 1 (of_right value) callback ttl renew

nothing_counted : (b : Bool) → ◌≡◌ {A = ℕ} (if b then 0 else 0) 0
nothing_counted true = refl
nothing_counted false = refl

module _ {ℓ κ} {L : Type ℓ} {R : Type κ} where
  counts_no_right :
      (index : ℕ) (v : DynValue L R)
      → IsTypedAt index v
      → (if index == 0 then one_of is_right v else 0) ≡ 0
  counts_no_right index (of_left l) t = nothing_counted (index == 0)
  counts_no_right index (of_right r) t = rw t refl

  counts_no_left :
      (index : ℕ) (v : DynValue L R)
      → IsTypedAt index v
      → (if index == 1 then one_of is_left v else 0) ≡ 0
  counts_no_left index (of_left l) t = rw t refl
  counts_no_left index (of_right r) t = nothing_counted (index == 1)

  -- A list without values of the other side downcasts, to the same values in their order.
  downcast_left_lem :
      (xs : List (DynValue L R))
      → total (one_of is_right) xs ≡ 0
      → (ls : List L) × (downcast_all left_of xs ≡ some ls) × (map of_left ls ≡ xs)
  unfolding downcast_all
  downcast_left_lem [] h = ([], refl, refl)
  downcast_left_lem (of_left l ∷ xs) h =
      let (ls, cast, same) = downcast_left_lem xs (omega (arith, h)) in
      (l ∷ ls, rw cast refl, ap (◌∷◌ (of_left l)) same)
  downcast_left_lem (of_right r ∷ xs) h = absurd (omega (arith, h))

  downcast_right_lem :
      (xs : List (DynValue L R))
      → total (one_of is_left) xs ≡ 0
      → (rs : List R) × (downcast_all right_of xs ≡ some rs) × (map of_right rs ≡ xs)
  unfolding downcast_all
  downcast_right_lem [] h = ([], refl, refl)
  downcast_right_lem (of_right r ∷ xs) h =
      let (rs, cast, same) = downcast_right_lem xs (omega (arith, h)) in
      (r ∷ rs, rw cast refl, ap (◌∷◌ (of_right r)) same)
  downcast_right_lem (of_left l ∷ xs) h = absurd (omega (arith, h))

total_zero {ℓ} :
    {A : Type ℓ} (g : A → ℕ) (i : ℕ) (x : A) (xs : List A)
    → get_elem? xs i ≡ some x
    → total g xs ≡ 0
    → g x ≡ 0
total_zero g i x [] at h = absurd cc
total_zero g zero x (y ∷ xs) at h = let same : y ≡ x = some_eq at in omega (arith, h, ap g same)
total_zero g (suc i) x (y ∷ xs) at h = total_zero g i x xs at (omega (arith, h))

-- The sides that must have values before a kind of join calls the business function: an inner join
-- wants both, a left join the left one, a right join the right one, an outer join none. An undefined
-- one never calls it.
abbrev pub WantsOnly {ℓ κ} : {L : Type ℓ} {R : Type κ} → JoinType → List L → List R → Type 0
WantsOnly inner ls rs = (0 < length ls) × (0 < length rs)
WantsOnly left ls rs = 0 < length ls
WantsOnly right ls rs = 0 < length rs
WantsOnly outer ls rs = Unit
WantsOnly undefined ls rs = ⊥

has_values_lem {ℓ κ} :
    {A : Type ℓ} {B : Type κ} (f : B → A) (index : ℕ) (values : List (List A)) (bs : List B)
    → map f bs ≡ list_at index values
    → has_values index values ≡ ltb 0 (length bs)
unfolding has_values
has_values_lem f index values bs h = at (get_elem? values index) refl
  where
    sized : (bs : List _) (l : List _) → map f bs ≡ l → not (is_empty l) ≡ ltb 0 (length bs)
    sized [] [] e = refl
    sized [] (a ∷ l) e = cc
    sized (b ∷ bs) [] e = cc
    sized (b ∷ bs) (a ∷ l) e = ground arith

    at :
        (o : Option (List _))
        → get_elem? values index ≡ o
        → (elim o as (λ _. Bool) [ none ↦ false | some l ↦ not (is_empty l) ]) ≡ ltb 0 (length bs)
    at none e = sized bs [] (h ∙ ap or_empty e)
    at (some l) e = sized bs l (h ∙ ap or_empty e)

positive : (n : ℕ) → ltb 0 n ≡ true → 0 < n
positive n h = ground arith

not_positive : (n : ℕ) → ltb 0 n ≡ false → 0 < n → ⊥
not_positive n h k = ground arith

can_call_lem {ℓ κ μ} :
    {A : Type ℓ} {L : Type κ} {R : Type μ} (join_type : JoinType) (values : List (List A))
    → (ls : List L) (rs : List R) → has_values 0 values ≡ ltb 0 (length ls)
    → has_values 1 values ≡ ltb 0 (length rs)
    → ((can_call join_type values ≡ true) × WantsOnly join_type ls rs)
      ⊎ ((can_call join_type values ≡ false) × (WantsOnly join_type ls rs → ⊥))
unfolding can_call
can_call_lem inner values ls rs h k = elim (Bool-cases (ltb 0 (length ls))) [
  | inl some_left ↦ elim (Bool-cases (ltb 0 (length rs))) [
    | inl some_right ↦
        inl (rw (h, k, some_left, some_right) refl, (positive _ some_left, positive _ some_right))
    | inr no_right ↦ inr (rw (h, k, some_left, no_right) refl, λ w. not_positive _ no_right w.1)
  ]
  | inr no_left ↦ inr (rw (h, no_left) refl, λ w. not_positive _ no_left w.0)
]
can_call_lem left values ls rs h k = elim (Bool-cases (ltb 0 (length ls))) [
  | inl some_left ↦ inl (h ∙ some_left, positive _ some_left)
  | inr no_left ↦ inr (h ∙ no_left, not_positive _ no_left)
]
can_call_lem right values ls rs h k = elim (Bool-cases (ltb 0 (length rs))) [
  | inl some_right ↦ inl (k ∙ some_right, positive _ some_right)
  | inr no_right ↦ inr (k ∙ no_right, not_positive _ no_right)
]
can_call_lem outer values ls rs h k = inl (refl, tt)
can_call_lem undefined values ls rs h k = inr (refl, λ w. w)

module _ {ℓ κ μ} {K : Type μ} {L : Type ℓ} {R : Type κ} where
  -- The calls of a storage that the two streams of a join make.
  abbrev pub AreTyped : List (Call K (DynValue L R)) → Type 0
  AreTyped calls = All (λ c. IsTypedAt c.index c.value) calls

  from_calls_zero :
      (j : ℕ) (p : DynValue L R → Bool) (calls : List (Call K (DynValue L R)))
      → ((index : ℕ) (v : DynValue L R)
          → IsTypedAt index v
          → (if index == j then one_of p v else 0) ≡ 0)
      → AreTyped calls
      → from_calls j p calls ≡ 0
  from_calls_zero j p [] h t = refl
  from_calls_zero j p (c ∷ calls) h (t, ts) = elim (Bool-cases (has_entered c.stage)) [
    | inl there ↦ rw there (omega (arith, h c.index c.value t, from_calls_zero j p calls h ts))
    | inr outside ↦ rw outside (omega (arith, from_calls_zero j p calls h ts))
  ]

  module _ ⦃eq : Eq K⦄ where
    -- A join whose storage is reached from an empty one by calls of its two streams, in any order of the
    -- steps: on the values of any group its callback answers without a panic. It answers what the
    -- business function answers on exactly the left and the right values of the group, in their
    -- order, where both sides have values for an inner join, the left for a left and the right for a
    -- right one, and always for an outer one; otherwise it answers that the group is not processed.
    pub downcasts_succeed :
        (xs : List (Step K (DynValue L R))) (t : Storage K (DynValue L R))
        → (seen : List (Seen K (DynValue L R))) (i : ℕ) (e : Entry (DynValue L R))
        → (join_type : JoinType) (join : JoinFunction K L R) (context : MessageContext) (key : K)
        → run xs new ≡ some (seen, t)
        → AreTyped t.calls
        → get_elem? t.entries i ≡ some e
        → (ls : List L) × (rs : List R) × (map of_left ls ≡ list_at 0 e.item.values)
          × (map of_right rs ≡ list_at 1 e.item.values)
          × ((WantsOnly join_type ls rs
                × (call_function join_type join context key e.item.values
                    ≡ some (join context key ls rs)))
              ⊎ ((WantsOnly join_type ls rs → ⊥)
                  × (call_function join_type join context key e.item.values ≡ some false)))
    unfolding call_function downcast_values
    downcasts_succeed xs t seen i e join_type join context key ran typed at =
        let no_right =
          values_conserved xs t seen 0 is_right ran
          ∙ from_calls_zero 0 is_right t.calls counts_no_right typed in
        let no_left =
          values_conserved xs t seen 1 is_left ran
          ∙ from_calls_zero 1 is_left t.calls counts_no_left typed in
        let (ls, cast_left, lefts) = downcast_left_lem (list_at 0 e.item.values) (
          total_zero (λ (d : Entry (DynValue L R)). count_at 0 is_right d.item.values) i e t.entries
            at no_right) in
        let (rs, cast_right, rights) = downcast_right_lem (list_at 1 e.item.values) (
          total_zero (λ (d : Entry (DynValue L R)). count_at 1 is_left d.item.values) i e t.entries
            at no_left) in
        (
          ls,
          rs,
          lefts,
          rights,
          elim (can_call_lem join_type e.item.values ls rs
              (has_values_lem of_left 0 e.item.values ls lefts)
              (has_values_lem of_right 1 e.item.values rs rights)) [
                | inl (calls, wanted) ↦ inl (wanted, rw (calls, cast_left, cast_right) refl)
                | inr (idle, unwanted) ↦ inr (unwanted, rw idle refl)
              ],
        )
