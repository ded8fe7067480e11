-- ===== src/Store/Join/Groups.antt =====
-- The values of the groups of src/runtime/store/hashmap.rs and the calls that brought them.
use rustservicelib.Base.{
  one_of, ℕ, List, [], ◌∷◌, some, Bool, true, false, ◌==◌, Eq, nat_eq, get_elem?, modify_at, total,
  total-append, total-modify_at, total-modify_at_same, length, if◌then◌else◌, ◌≡◌, refl, sym, ◌∙◌,
  ap, arith,
}
use rustservicelib.Store.Join.{
  Entry, Stage, Call, Storage, Seen, admitting, waiting, invoking, retiring, removing, returned,
  accept, answer, go, fresh, new,
}
use rustservicelib.Store.Join.Steps.{Step, finish, claim, run}
use rustservicelib.Store.Join.Cells.{accept-values}
use rustservicelib.Store.Join.Changes.{
  Change, stays, started, found, made, missed, entered, finished, retried, left, woken, postponed,
  claimed, evicted, ticked, run-Reaches, Reaches-keeps,
}
use rustservicelib.Store.Join.Values.{count_at, count_at-push_value}

-- The calls whose value has entered a group.
abbrev pub has_entered : Stage → Bool
has_entered admitting = false
has_entered (waiting i) = false
has_entered (invoking i) = true
has_entered (retiring i) = false
has_entered (removing i) = true
has_entered returned = true

ends_entered : (b : Bool) (i : ℕ) → has_entered (if b then removing i else returned) ≡ true
ends_entered true i = refl
ends_entered false i = refl

module _ {κ} {A : Type κ} where
  abbrev in_entry : ℕ → (A → Bool) → Entry A → ℕ
  in_entry j p e = count_at j p e.item.values

  -- How many values at an index satisfy a test, in all groups.
  abbrev pub in_groups : ℕ → (A → Bool) → List (Entry A) → ℕ
  in_groups j p entries = total (in_entry j p) entries

module _ {ℓ κ} {K : Type ℓ} {A : Type κ} where
  abbrev brought : ℕ → (A → Bool) → Call K A → ℕ
  brought j p c = if has_entered c.stage then (if c.index == j then one_of p c.value else 0) else 0

  -- How many calls brought such a value.
  abbrev pub from_calls : ℕ → (A → Bool) → List (Call K A) → ℕ
  from_calls j p calls = total (brought j p) calls

  abbrev IsKept : ℕ → (A → Bool) → Storage K A → Type 0
  IsKept j p s = in_groups j p s.entries ≡ from_calls j p s.calls

  same_side :
      (j : ℕ) (p : A → Bool) (call : ℕ) (c : Call K A) (st : Stage) (calls : List (Call K A))
      → get_elem? calls call ≡ some c
      → has_entered c.stage ≡ has_entered st
      → from_calls j p (modify_at call (go st) calls) ≡ from_calls j p calls
  same_side j p call c st calls at h =
      let moved = total-modify_at (brought j p) call (go st) c calls at in
      let kept : brought j p c ≡ brought j p (go st c) = rw h refl in omega (arith, moved, kept)

  module _ ⦃eq : Eq K⦄ where
    Change-IsKept :
        (j : ℕ) (p : A → Bool) (s t : Storage K A) (seen : List (Seen K A))
        → Change s seen t
        → IsKept j p s
        → IsKept j p t
    unfolding fresh finish
    Change-IsKept j p s t seen stays v = v
    Change-IsKept j p s t seen (started c st) v =
        let idle : brought j p c ≡ 0 = rw st refl in
        omega (arith, v, idle, total-append (brought j p) s.calls (c ∷ []))
    Change-IsKept j p s t seen (found call c i at live) v =
        v ∙ sym (same_side j p call c (waiting i) s.calls at.0 (ap has_entered at.1))
    Change-IsKept j p s t seen (made call c at live) v = omega (
      arith,
      v,
      total-append (in_entry j p) s.entries (fresh s.now c ∷ []),
      same_side j p call c (waiting (length s.entries)) s.calls at.0 (ap has_entered at.1),
    )
    Change-IsKept j p s t seen (missed call c i e at free over) v =
        v ∙ sym (same_side j p call c (retiring i) s.calls at.0 (ap has_entered at.1))
    Change-IsKept j p s t seen (entered call c i e timers at free fresh_one live armed) v =
        let idle : brought j p c ≡ 0 = rw (ap has_entered at.1) refl in
        omega (
          arith,
          v,
          idle,
          total-modify_at (brought j p) call (go (invoking i)) c s.calls at.0,
          total-modify_at (in_entry j p) i (accept call (length s.timers) c) e s.entries free.0,
          ap (count_at j p) (accept-values call (length s.timers) c e),
          count_at-push_value j c.index p c.value e.item.values,
        )
    Change-IsKept j p s t seen (finished call c i b at) v = omega (
      arith,
      v,
      total-modify_at_same (in_entry j p) i (answer s.now c b) s.entries
          (λ e. unfold answer in refl),
      same_side j p call c (if b then removing i else returned) s.calls at.0
          (ap has_entered at.1 ∙ sym (ends_entered b i)),
    )
    Change-IsKept j p s t seen (retried call c i at) v =
        v ∙ sym (same_side j p call c admitting s.calls at.0 (ap has_entered at.1))
    Change-IsKept j p s t seen (left call c i at) v =
        v ∙ sym (same_side j p call c returned s.calls at.0 (ap has_entered at.1))
    Change-IsKept j p s t seen (woken n w st at h) v = v
    Change-IsKept j p s t seen (postponed n w deadline at) v = v
    Change-IsKept j p s t seen (claimed n w e at st free fresh_one) v =
        omega (arith, v, total-modify_at (in_entry j p) w.item claim e s.entries free.0)
    Change-IsKept j p s t seen (evicted n w at st) v = v
    Change-IsKept j p s t seen (ticked n) v = v

    -- From an empty storage, in any order of the steps: the values that the groups have at an index are
    -- those of the calls at that index which have entered, by any test of values. So no value of a
    -- call is lost or kept twice, also where the call retries because the group it found has ended.
    pub values_conserved :
        (xs : List (Step K A)) (t : Storage K A) (seen : List (Seen K A)) (j : ℕ) (p : A → Bool)
        → run xs new ≡ some (seen, t)
        → in_groups j p t.entries ≡ from_calls j p t.calls
    values_conserved xs t seen j p h =
        Reaches-keeps (IsKept j p) (Change-IsKept j p) (run-Reaches xs new t seen h)
          (unfold new in refl)
