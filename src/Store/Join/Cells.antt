-- ===== src/Store/Join/Cells.antt =====
-- What src/runtime/store/hashmap.rs does to one entry.
use rustservicelib.Base.{
  some_eq, map_option-some, ◌++◌, ℕ, List, [], ◌∷◌, Bool, some, ◌≡◌, refl, Option, none, Bool-cases,
  inl, inr, true, false, get_elem?, ltb, ◌&&◌, ◌⊎◌, append-cases, modify_at-cases, sym, ap, ◌∙◌,
}
use rustservicelib.Store.Join.{
  Entry, Call, Timer, accept, push_value, is_empty, arm_expiry, armed_timer, cancel_expiry,
  sleeping,
}

module _ {ℓ κ} {K : Type ℓ} {A : Type κ} where
  pub accept-values :
      (call timer : ℕ) (c : Call K A) (e : Entry A)
      → (accept call timer c e).item.values ≡ push_value c.index c.value e.item.values
  unfolding accept
  accept-values call timer c e = elim (Bool-cases (is_empty e.item.values)) [
    | inl none_yet ↦ rw none_yet refl
    | inr some_there ↦ rw some_there refl
  ]

  pub accept-processed :
      (call timer : ℕ) (c : Call K A) (e : Entry A)
      → (accept call timer c e).item.processed ≡ e.item.processed
  unfolding accept
  accept-processed call timer c e = elim (Bool-cases (is_empty e.item.values)) [
    | inl none_yet ↦ rw none_yet refl
    | inr some_there ↦ rw some_there refl
  ]

  -- The expiry tasks after a call has entered: those before, and at most one that sleeps.
  pub arm_expiry-cases :
      (i : ℕ) (c : Call K A) (e : Entry A) (timers after : List (Timer K)) (n : ℕ) (w : Timer K)
      → arm_expiry i c e timers ≡ some after
      → get_elem? after n ≡ some w
      → (get_elem? timers n ≡ some w) ⊎ (w.watch ≡ sleeping)
  unfolding arm_expiry
  arm_expiry-cases i c e timers after n w h at =
      elim (Bool-cases (is_empty e.item.values && ltb 0 c.effective_ttl)) [
        | inl arms ↦
            let add : ℕ → List (Timer K) = λ deadline. timers ++ armed_timer i c e deadline ∷ [] in
            let (deadline, is, all) =
              map_option-some add e.deadline after (sym (rw arms refl) ∙ h) in
            elim (append-cases n w (armed_timer i c e deadline) timers
              (ap (λ (l : List (Timer K)). get_elem? l n) (sym all) ∙ at)) [
                | inl old ↦ inl old
                | inr (last, same) ↦ inr (ap (λ (x : Timer K). x.watch) same)
              ]
        | inr quiet ↦
            inl
              (ap (λ (l : List (Timer K)). get_elem? l n) (some_eq (sym (rw quiet refl) ∙ h)) ∙ at)
      ]

module _ {ℓ} {K : Type ℓ} where
  -- An expiry task that was told to stop, or not, is where it was.
  pub cancel_expiry-cases :
      (b : Bool) (o : Option ℕ) (timers : List (Timer K)) (n : ℕ) (w : Timer K)
      → get_elem? (cancel_expiry b o timers) n ≡ some w
      → (x : Timer K) × (get_elem? timers n ≡ some x)
        × (w.watch ≡ x.watch)
        × (w.item ≡ x.item)
        × (w.key ≡ x.key)
  unfolding cancel_expiry
  cancel_expiry-cases true (some t) timers n w at =
      let off : Timer K → Timer K = λ v. record v { cancelled = true } in
      let (x, before, how) = modify_at-cases t n off w timers at in
      elim how [
        | inl same ↦ (
          x,
          before,
          ap (λ (v : Timer K). v.watch) same,
          ap (λ (v : Timer K). v.item) same,
          ap (λ (v : Timer K). v.key) same,
        )
        | inr (hit, same) ↦ (
          x,
          before,
          ap (λ (v : Timer K). v.watch) same,
          ap (λ (v : Timer K). v.item) same,
          ap (λ (v : Timer K). v.key) same,
        )
      ]
  cancel_expiry-cases true none timers n w at = (w, at, refl, refl, refl)
  cancel_expiry-cases false o timers n w at = (w, at, refl, refl, refl)
