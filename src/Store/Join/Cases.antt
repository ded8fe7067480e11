-- ===== src/Store/Join/Cases.antt =====
-- What a step of src/runtime/store/hashmap.rs does that gets the lock of an entry.
use rustservicelib.Base.{
  ℕ, List, [], Option, none, some, Bool, true, false, ◌==◌, nat_eq, not, get_elem?, some_eq,
  map_option-some, ◌||◌, ◌≡◌, refl, sym, ◌∙◌, ap, inl, inr, ◌⊎◌, Bool-cases, Option-cases, arith,
}
use rustservicelib.Store.Join.{
  Entry, Call, Timer, Storage, Seen, retiring, ended, is_expired, to_stage, to_watch, arm_expiry,
  cancel_expiry,
}
use rustservicelib.Store.Join.Steps.{
  accepted, deliver, expire, finish, renewed, claim_expiry, under_lock, quiet, lock_free,
  under_lock_timer,
}

lock_free-free {ℓ} :
    {B : Type ℓ} (holder : Option ℕ) (waits works : B)
    → holder ≡ none
    → lock_free holder waits works ≡ works
lock_free-free none waits works h = refl
lock_free-free (some other) waits works h = absurd cc

lock_free-held {ℓ} :
    {B : Type ℓ} (holder : Option ℕ) (other : ℕ) (waits works : B)
    → holder ≡ some other
    → lock_free holder waits works ≡ waits
lock_free-held none other waits works h = absurd cc
lock_free-held (some holder) other waits works h = refl

module _ {ℓ κ} {K : Type ℓ} {A : Type κ} where
  pub quiet_eq : {s t : Storage K A} {seen : List (Seen K A)} → quiet s ≡ some (seen, t) → s ≡ t
  quiet_eq h = ap (λ (p : List (Seen K A) × Storage K A). p.1) (some_eq h)

  -- A call that has the lock of an entry: the group is over and is to be retired, or the value
  -- enters it.
  abbrev pub Taken : ℕ → Call K A → ℕ → Entry A → Storage K A → Storage K A → Type (ℓ ⊔ κ)
  Taken call c i e s t =
      (((e.item.processed || is_expired s.now e.deadline) ≡ true)
        × (t ≡ to_stage call (retiring i) s))
      ⊎ ((e.item.processed ≡ false)
          × (is_expired s.now e.deadline ≡ false)
          × ((timers : List (Timer K)) × (arm_expiry i c e s.timers ≡ some timers)
              × (t ≡ accepted call c i s timers)))

  under_lock-cases :
      (call : ℕ) (c : Call K A) (i : ℕ) (e : Entry A) (s t : Storage K A)
      → under_lock call c i e s ≡ some t
      → Taken call c i e s t
  under_lock-cases call c i e s t h =
      elim (Bool-cases (e.item.processed || is_expired s.now e.deadline)) [
        | inl over ↦ inl (over, sym (some_eq (sym (rw over refl) ∙ h)))
        | inr live ↦
            let armed =
              map_option-some (accepted call c i s) (arm_expiry i c e s.timers) t
                (sym (rw live refl) ∙ h) in
            inr (ground (arith, live), ground (arith, live), armed)
      ]

  pub deliver-cases :
      (call : ℕ) (c : Call K A) (i : ℕ) (s t : Storage K A)
      → deliver call c i s ≡ some t
      → (t ≡ s)
        ⊎ ((e : Entry A) × (get_elem? s.entries i ≡ some e)
            × (e.holder ≡ none)
            × Taken call c i e s t)
  unfolding deliver
  deliver-cases call c i s t h = elim (Option-cases (get_elem? s.entries i)) [
    | inl missing ↦ inl (sym (some_eq (sym (rw (missing, deliver) refl) ∙ h)))
    | inr (e, at) ↦
        let there = sym (rw (at, deliver) refl) ∙ h in
        elim (Option-cases e.holder) [
          | inl free ↦ inr (
            e,
            at,
            free,
            under_lock-cases call c i e s t
                (sym (lock_free-free e.holder (some s) (under_lock call c i e s) free) ∙ there),
          )
          | inr (other, held) ↦ inl (
              sym (
                some_eq (
                  sym (lock_free-held e.holder other (some s) (under_lock call c i e s) held)
                  ∙ there)))
        ]
  ]

  -- An expiry task that has the lock of its entry: its group is over, or its deadline has moved, or
  -- it claims the group, which is open.
  abbrev pub Claimed :
      ℕ → Timer K → Entry A → Storage K A → List (Seen K A) → Storage K A → Type (ℓ ⊔ κ)
  Claimed t w e s seen u =
      ((seen ≡ []) × (u ≡ to_watch t ended s))
      ⊎ ((e.item.processed ≡ false)
          × ◌≡◌ {A = List (Seen K A) × Storage K A} (seen, u)
              (claim_expiry t w e s (renewed s.now w e)))

  under_lock_timer-cases :
      (t : ℕ) (w : Timer K) (e : Entry A) (s u : Storage K A) (seen : List (Seen K A))
      → under_lock_timer t w e s ≡ (seen, u)
      → Claimed t w e s seen u
  under_lock_timer-cases t w e s u seen h =
      elim (Bool-cases (e.item.processed || not (e.item.generation == w.generation))) [
        | inl over ↦
            let there = sym h ∙ rw over refl in
            inl (
              ap (λ (p : List (Seen K A) × Storage K A). p.0) there,
              ap (λ (p : List (Seen K A) × Storage K A). p.1) there,
            )
        | inr live ↦ inr (ground (arith, live), sym h ∙ rw live refl)
      ]

  pub expire-cases :
      (t : ℕ) (w : Timer K) (s u : Storage K A) (seen : List (Seen K A))
      → expire t w s ≡ (seen, u)
      → ((seen ≡ []) × (u ≡ s))
        ⊎ ((e : Entry A) × (get_elem? s.entries w.item ≡ some e)
            × (e.holder ≡ none)
            × Claimed t w e s seen u)
  unfolding expire
  expire-cases t w s u seen h = elim (Option-cases (get_elem? s.entries w.item)) [
    | inl missing ↦ inl (nothing (sym h ∙ rw (missing, expire) refl))
    | inr (e, at) ↦
        let there = sym (rw (at, expire) refl) ∙ h in
        elim (Option-cases e.holder) [
          | inl free ↦ inr (
            e,
            at,
            free,
            under_lock_timer-cases t w e s u seen
                (sym (lock_free-free e.holder ([], s) (under_lock_timer t w e s) free) ∙ there),
          )
          | inr (other, held) ↦ inl (
              nothing
                (sym there ∙ lock_free-held e.holder other ([], s) (under_lock_timer t w e s) held))
        ]
  ]
    where
      nothing : ◌≡◌ {A = List (Seen K A) × Storage K A} (seen, u) ([], s) → (seen ≡ []) × (u ≡ s)
      nothing e = (
        ap (λ (p : List (Seen K A) × Storage K A). p.0) e,
        ap (λ (p : List (Seen K A) × Storage K A). p.1) e,
      )

  pub finish-timers :
      (call : ℕ) (c : Call K A) (i : ℕ) (b : Bool) (s : Storage K A) (e : Entry A)
      → get_elem? s.entries i ≡ some e
      → (finish call c i b s).timers ≡ cancel_expiry b e.item.expiry s.timers
  unfolding finish
  finish-timers call c i b s e at = rw (at, finish) refl

  pub deliver_free :
      (call : ℕ) (c : Call K A) (i : ℕ) (e : Entry A) (s : Storage K A)
      → get_elem? s.entries i ≡ some e
      → e.holder ≡ none
      → deliver call c i s ≡ under_lock call c i e s
  unfolding deliver
  deliver_free call c i e s at free =
      rw (at, deliver) (lock_free-free e.holder (some s) (under_lock call c i e s) free)
