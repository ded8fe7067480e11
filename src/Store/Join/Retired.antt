-- ===== src/Store/Join/Retired.antt =====
-- The map of src/runtime/store/hashmap.rs loses an entry only when no call will use it again.
use rustservicelib.Base.{
  some_eq, same_cell, ℕ, List, Option, none, some, true, false, Eq, nat_eq, get_elem?, modify_at,
  map_option, get_elem?-modify_at, append-cases, modify_at-cases, length, lookup, lookup-remove,
  ◌≡◌, refl, sym, ◌∙◌, ap, inl, inr, ◌⊎◌, Bool-cases, arith,
}
use rustservicelib.Store.Join.{
  Entry, Stage, Call, Watch, Timer, Storage, Seen, admitting, waiting, invoking, retiring, removing,
  returned, sleeping, awake, calling, ended, answer, go, arm_expiry, remove_if_same, new,
}
use rustservicelib.Store.Join.Steps.{finish, claim}
use rustservicelib.Store.Join.Cells.{arm_expiry-cases, cancel_expiry-cases}
use rustservicelib.Store.Join.Cases.{finish-timers}
use rustservicelib.Store.Join.Changes.{
  Change, stays, started, found, made, missed, entered, finished, retried, left, woken, postponed,
  claimed, evicted, ticked,
}
use rustservicelib.Store.Join.Locks.{IsLocked, Change-IsLocked, new-IsLocked}
use rustservicelib.Store.Join.Doomed.{IsOver, Doomed, Change-Doomed}

-- The entry that a call is about to remove.
abbrev removes : Stage → Option ℕ
removes admitting = none
removes (waiting i) = none
removes (invoking i) = none
removes (retiring i) = some i
removes (removing i) = some i
removes returned = none

abbrev removes_now : Watch → ℕ → Option ℕ
removes_now sleeping i = none
removes_now awake i = none
removes_now calling i = some i
removes_now ended i = none

pub remove_if_same-cases {ℓ} :
    {K : Type ℓ} ⦃eq : Eq K⦄ (k j : K) (i n : ℕ) (items : List (K × ℕ))
    → lookup j items ≡ some n
    → (lookup j (remove_if_same k i items) ≡ some n) ⊎ (n ≡ i)
unfolding remove_if_same
remove_if_same-cases ⦃eq⦄ k j i n items h = ground (arith, lookup-remove k j items, eq.beq_iff k j)

same_removal {ℓ} :
    {K : Type ℓ} (x w : Timer K)
    → w.watch ≡ x.watch
    → w.item ≡ x.item
    → removes_now x.watch x.item ≡ removes_now w.watch w.item
same_removal x w watch item = rw (watch, item) refl

module _ {ℓ κ} {K : Type ℓ} {A : Type κ} where
  abbrev CallsOver : Storage K A → Type (ℓ ⊔ κ)
  CallsOver s =
      (call : ℕ) (c : Call K A) (i : ℕ)
      → get_elem? s.calls call ≡ some c
      → removes c.stage ≡ some i
      → Doomed i s.now s.entries

  abbrev TimersOver : Storage K A → Type (ℓ ⊔ κ)
  TimersOver s =
      (t : ℕ) (w : Timer K) (i : ℕ)
      → get_elem? s.timers t ≡ some w
      → removes_now w.watch w.item ≡ some i
      → Doomed i s.now s.entries

  -- What a step keeps closed.
  abbrev Keeps : Storage K A → Storage K A → Type κ
  Keeps s t = (i : ℕ) → Doomed i s.now s.entries → Doomed i t.now t.entries

  moved-CallsOver :
      (call : ℕ) (st : Stage) (s t : Storage K A)
      → t.calls ≡ modify_at call (go st) s.calls
      → ((i : ℕ) → removes st ≡ some i → Doomed i t.now t.entries)
      → Keeps s t
      → CallsOver s
      → CallsOver t
  moved-CallsOver call st s t same mine k v other c i at h =
      let here = ap (λ (l : List (Call K A)). get_elem? l other) (sym same) ∙ at in
      let (d, before, how) = modify_at-cases call other (go st) c s.calls here in
      let stage_removes = λ (x : Call K A). removes x.stage in
      elim how [
        | inl kept ↦ k i (v other d i before (ap stage_removes (sym kept) ∙ h))
        | inr (hit, moved) ↦ mine i (ap stage_removes (sym moved) ∙ h)
      ]

  moved-TimersOver :
      (n : ℕ) (f : Timer K → Timer K) (s t : Storage K A)
      → t.timers ≡ modify_at n f s.timers
      → ((w : Timer K) (i : ℕ)
          → get_elem? s.timers n ≡ some w
          → removes_now (f w).watch (f w).item ≡ some i
          → Doomed i t.now t.entries)
      → Keeps s t
      → TimersOver s
      → TimersOver t
  moved-TimersOver n f s t same mine k v m w i at h =
      let here = ap (λ (l : List (Timer K)). get_elem? l m) (sym same) ∙ at in
      let (x, before, how) = modify_at-cases n m f w s.timers here in
      let watch_removes = λ (z : Timer K). removes_now z.watch z.item in
      elim how [
        | inl kept ↦ k i (v m x i before (ap watch_removes (sym kept) ∙ h))
        | inr (hit, moved) ↦
            mine x i (ap (get_elem? s.timers) hit ∙ before) (ap watch_removes (sym moved) ∙ h)
      ]

  module _ ⦃eq : Eq K⦄ where
    Change-CallsOver :
        (s t : Storage K A) (seen : List (Seen K A))
        → Change s seen t
        → IsLocked s
        → Keeps s t
        → CallsOver s
        → CallsOver t
    unfolding finish answer
    Change-CallsOver s t seen stays v k o = o
    Change-CallsOver s t seen (started c st) v k o = λ call d i at h.
        elim (append-cases call d c s.calls at) [
          | inl old ↦ o call d i old h
          | inr (last, same) ↦ absurd (
              none_some
                (sym (ap removes st) ∙ ap (λ (x : Call K A). removes x.stage) (sym same) ∙ h))
        ]
      where
        none_some : {i : ℕ} → none ≡ some i → ⊥
        none_some h = cc
    Change-CallsOver s t seen (found call c i at live) v k o =
        moved-CallsOver call (waiting i) s t refl (λ j h. absurd cc) k o
    Change-CallsOver s t seen (made call c at live) v k o =
        moved-CallsOver call (waiting (length s.entries)) s t refl (λ j h. absurd cc) k o
    Change-CallsOver s t seen (missed call c i e at free over) v k o =
        moved-CallsOver call (retiring i) s t refl
          (λ j h.
            let ij : i ≡ j = some_eq h in
            rw (← ij) (e, free.0, closed (Bool-cases e.item.processed)))
          k o
      where
        closed : (e.item.processed ≡ true) ⊎ (e.item.processed ≡ false) → IsOver s.now e
        closed (inl done) = inl done
        closed (inr alive) = inr (sym (rw alive refl) ∙ over, free.1)
    Change-CallsOver s t seen (entered call c i e timers at free fresh_one live armed) v k o =
        moved-CallsOver call (invoking i) s t refl (λ j h. absurd cc) k o
    Change-CallsOver s t seen (finished call c i true at) v k o =
        let (e, place, held, fresh_one) = v call c i at.0 at.1 in
        moved-CallsOver call (removing i) s t refl
          (λ j h.
            let ij : i ≡ j = some_eq h in
            rw (← ij) (
              answer s.now c true e,
              get_elem?-modify_at i (answer s.now c true) s.entries
                  ∙ ap (map_option (answer s.now c true)) place,
              inl refl,
            ))
          k o
    Change-CallsOver s t seen (finished call c i false at) v k o =
        moved-CallsOver call returned s t refl (λ j h. absurd cc) k o
    Change-CallsOver s t seen (retried call c i at) v k o =
        moved-CallsOver call admitting s t refl (λ j h. absurd cc) k o
    Change-CallsOver s t seen (left call c i at) v k o =
        moved-CallsOver call returned s t refl (λ j h. absurd cc) k o
    Change-CallsOver s t seen (woken n w st at h) v k o = λ call c i at h. k i (o call c i at h)
    Change-CallsOver s t seen (postponed n w deadline at) v k o =
        λ call c i at h. k i (o call c i at h)
    Change-CallsOver s t seen (claimed n w e at st free fresh_one) v k o =
        λ call c i at h. k i (o call c i at h)
    Change-CallsOver s t seen (evicted n w at st) v k o = λ call c i at h. k i (o call c i at h)
    Change-CallsOver s t seen (ticked n) v k o = λ call c i at h. k i (o call c i at h)

    arm_expiry-TimersOver :
        (i : ℕ) (c : Call K A) (e : Entry A) (timers : List (Timer K)) (s t : Storage K A)
        → arm_expiry i c e s.timers ≡ some timers
        → t.timers ≡ timers
        → Keeps s t
        → TimersOver s
        → TimersOver t
    arm_expiry-TimersOver i c e timers s t armed same k o n w j at h =
        elim (arm_expiry-cases i c e s.timers timers n w armed
          (ap (λ (l : List (Timer K)). get_elem? l n) (sym same) ∙ at)) [
            | inl old ↦ k j (o n w j old h)
            | inr asleep ↦ absurd (calm w asleep h)
          ]
      where
        calm : (w : Timer K) → w.watch ≡ sleeping → removes_now w.watch w.item ≡ some j → ⊥
        calm w st h = no_entry (sym (ap (λ st. removes_now st w.item) st) ∙ h)
          where
            no_entry : none ≡ some j → ⊥
            no_entry e = cc

    Change-TimersOver :
        (s t : Storage K A) (seen : List (Seen K A))
        → Change s seen t
        → IsLocked s
        → Keeps s t
        → TimersOver s
        → TimersOver t
    unfolding finish
    Change-TimersOver s t seen stays v k o = o
    Change-TimersOver s t seen (started c st) v k o = o
    Change-TimersOver s t seen (found call c i at live) v k o = o
    Change-TimersOver s t seen (made call c at live) v k o = λ n w i at h. k i (o n w i at h)
    Change-TimersOver s t seen (missed call c i e at free over) v k o = o
    Change-TimersOver s t seen (entered call c i e timers at free fresh_one live armed) v k o =
        arm_expiry-TimersOver i c e timers s t armed refl k o
    Change-TimersOver s t seen (finished call c i b at) v k o =
        let (e, place, held, fresh_one) = v call c i at.0 at.1 in
        λ n w j here h.
          let (x, before, watch, item, _) = cancel_expiry-cases b e.item.expiry s.timers n w (
            ap (λ (l : List (Timer K)). get_elem? l n) (sym (finish-timers call c i b s e place))
            ∙ here) in
          k j (o n x j before (same_removal x w watch item ∙ h))
    Change-TimersOver s t seen (retried call c i at) v k o = o
    Change-TimersOver s t seen (left call c i at) v k o = o
    Change-TimersOver s t seen (woken n w st at (inl e)) v k o =
        moved-TimersOver n (λ (x : Timer K). record x { watch = st }) s t refl
          (λ x i there h. absurd (no_entry (sym (ap (λ st. removes_now st x.item) e) ∙ h))) k o
      where
        no_entry : {i : ℕ} → none ≡ some i → ⊥
        no_entry e = cc
    Change-TimersOver s t seen (woken n w st at (inr e)) v k o =
        moved-TimersOver n (λ (x : Timer K). record x { watch = st }) s t refl
          (λ x i there h. absurd (no_entry (sym (ap (λ st. removes_now st x.item) e) ∙ h))) k o
      where
        no_entry : {i : ℕ} → none ≡ some i → ⊥
        no_entry e = cc
    Change-TimersOver s t seen (postponed n w deadline at) v k o =
        moved-TimersOver n (λ (x : Timer K). record x { deadline = deadline; watch = sleeping }) s t
          refl (λ x i there h. absurd cc) k o
    Change-TimersOver s t seen (claimed n w e at st free fresh_one) v k o =
        moved-TimersOver n (λ (x : Timer K). record x { watch = calling }) s t refl
          (λ x i there h.
            let same : x ≡ w = same_cell at there in
            let hit : w.item ≡ i = ap (λ (v : Timer K). v.item) (sym same) ∙ some_eq h in
            rw (← hit) (
              claim e,
              get_elem?-modify_at w.item claim s.entries ∙ ap (map_option claim) free.0,
              inl refl,
            ))
          k o
    Change-TimersOver s t seen (evicted n w at st) v k o =
        moved-TimersOver n (λ (x : Timer K). record x { watch = ended }) s t refl
          (λ x i there h. absurd cc) k o
    Change-TimersOver s t seen (ticked n) v k o = λ m w i at h. k i (o m w i at h)

    -- Who is about to remove an entry removes one that is closed.
    abbrev pub IsTidy : Storage K A → Type (ℓ ⊔ κ)
    IsTidy s = IsLocked s × CallsOver s × TimersOver s

    pub Change-IsTidy :
        (s t : Storage K A) (seen : List (Seen K A)) → Change s seen t → IsTidy s → IsTidy t
    Change-IsTidy s t seen d (v, calls, timers) =
        let keeps : Keeps s t = λ i. Change-Doomed i s t seen d v in
        (
          Change-IsLocked s t seen d v,
          Change-CallsOver s t seen d v keeps calls,
          Change-TimersOver s t seen d v keeps timers,
        )

    pub new-IsTidy : IsTidy (new {K = K} {A = A})
    new-IsTidy =
        (new-IsLocked, unfold new in λ call c i at. absurd cc, unfold new in λ t w i at. absurd cc)
