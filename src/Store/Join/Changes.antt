-- ===== src/Store/Join/Changes.antt =====
-- The step relation of src/runtime/store/hashmap.rs, with what a step finds where it does something.
use rustservicelib.Base.{
  some_eq, bind-some, ℕ, ◌+◌, List, [], ◌∷◌, ◌++◌, Option, none, some, Bool, true, false, Eq,
  nat_eq, get_elem?, modify_at, ◌>>=◌, ◌||◌, leb, is_some, ◌≡◌, refl, sym, ◌∙◌, inl, inr, ◌⊎◌,
  Bool-cases, Option-cases, subst,
}
use rustservicelib.Store.Join.{
  Entry, Stage, Call, Watch, Timer, Storage, Seen, admitting, waiting, invoking, retiring, removing,
  returned, sleeping, awake, calling, ended, answered, expired_group, is_expired, to_stage,
  to_watch, live_entry, admitted, remove_if_same, arm_expiry,
}
use rustservicelib.Store.Join.Steps.{
  Step, starts, moves, wakes, ticks, Outcome, start_call, accepted, deliver, finish, claim, expire,
  claim_expiry, renewed, wake, move, move_timer, step, run, quiet,
}
use rustservicelib.Store.Join.Cases.{deliver-cases, expire-cases}

module _ {ℓ κ} {K : Type ℓ} {A : Type κ} ⦃eq : Eq K⦄ where
  -- A call at a stage.
  abbrev pub At : ℕ → Call K A → Stage → Storage K A → Type (ℓ ⊔ κ)
  At call c st s = (get_elem? s.calls call ≡ some c) × (c.stage ≡ st)

  -- An entry whose lock is free.
  abbrev pub Free : ℕ → Entry A → Storage K A → Type κ
  Free i e s = (get_elem? s.entries i ≡ some e) × (e.holder ≡ none)

  pub data Change (s : Storage K A) : List (Seen K A) → Storage K A → Type (ℓ ⊔ κ) where
    stays : Change s [] s
    started :
        (c : Call K A) → c.stage ≡ admitting → Change s [] (record s { calls = s.calls ++ c ∷ [] })
    found :
        (call : ℕ) (c : Call K A) (i : ℕ)
        → At call c admitting s
        → live_entry c.key s ≡ some i
        → Change s [] (admitted call c (some i) s)
    made :
        (call : ℕ) (c : Call K A)
        → At call c admitting s
        → live_entry c.key s ≡ none
        → Change s [] (admitted call c none s)
    missed :
        (call : ℕ) (c : Call K A) (i : ℕ) (e : Entry A)
        → At call c (waiting i) s
        → Free i e s
        → (e.item.processed || is_expired s.now e.deadline) ≡ true
        → Change s [] (to_stage call (retiring i) s)
    entered :
        (call : ℕ) (c : Call K A) (i : ℕ) (e : Entry A) (timers : List (Timer K))
        → At call c (waiting i) s
        → Free i e s
        → e.item.processed ≡ false
        → is_expired s.now e.deadline ≡ false
        → arm_expiry i c e s.timers ≡ some timers
        → Change s [] (accepted call c i s timers)
    finished :
        (call : ℕ) (c : Call K A) (i : ℕ) (processed : Bool)
        → At call c (invoking i) s
        → Change s (answered i processed ∷ []) (finish call c i processed s)
    retried :
        (call : ℕ) (c : Call K A) (i : ℕ)
        → At call c (retiring i) s
        → Change s []
            (record (to_stage call admitting s) { items = remove_if_same c.key i s.items })
    left :
        (call : ℕ) (c : Call K A) (i : ℕ)
        → At call c (removing i) s
        → Change s [] (record (to_stage call returned s) { items = remove_if_same c.key i s.items })
    woken :
        (t : ℕ) (w : Timer K) (st : Watch)
        → get_elem? s.timers t ≡ some w
        → st ≡ ended ⊎ st ≡ awake
        → Change s [] (to_watch t st s)
    postponed :
        (t : ℕ) (w : Timer K) (deadline : ℕ)
        → get_elem? s.timers t ≡ some w
        → Change s [] (record s {
          timers =
              modify_at t
                (λ (v : Timer K). record v { deadline = deadline; watch = sleeping })
                s.timers;
        })
    claimed :
        (t : ℕ) (w : Timer K) (e : Entry A)
        → get_elem? s.timers t ≡ some w
        → w.watch ≡ awake
        → Free w.item e s
        → e.item.processed ≡ false
        → Change s
            (expired_group w.item e.item.callback e.item.context w.key e.item.values ∷ [])
            (record s {
              entries = modify_at w.item claim s.entries;
              timers = modify_at t (λ (v : Timer K). record v { watch = calling }) s.timers;
            })
    evicted :
        (t : ℕ) (w : Timer K)
        → get_elem? s.timers t ≡ some w
        → w.watch ≡ calling
        → Change s [] (record (to_watch t ended s) { items = remove_if_same w.key w.item s.items })
    ticked : (n : ℕ) → Change s [] (record s { now = s.now + n })

  from_some :
      {s t u : Storage K A} {a seen : List (Seen K A)}
      → Change s a u
      → ◌≡◌ {A = Outcome K A} (some (a, u)) (some (seen, t))
      → Change s seen t
  from_some {s = s} d h =
      subst (λ (p : List (Seen K A) × Storage K A). Change s p.0 p.1) (some_eq h) d

  admit-Change :
      (call : ℕ) (c : Call K A) (s : Storage K A)
      → At call c admitting s
      → Change s [] (admitted call c (live_entry c.key s) s)
  admit-Change call c s at = elim (Option-cases (live_entry c.key s)) [
    | inl missing ↦ rw missing (made call c at missing)
    | inr (i, live) ↦ rw live (found call c i at live)
  ]

  deliver-Change :
      (call : ℕ) (c : Call K A) (i : ℕ) (s t : Storage K A)
      → At call c (waiting i) s
      → deliver call c i s ≡ some t
      → Change s [] t
  deliver-Change call c i s t at h = elim (deliver-cases call c i s t h) [
    | inl same ↦ rw same stays
    | inr (e, here, free, inl (over, done)) ↦ rw done (missed call c i e at (here, free) over)
    | inr (e, here, free, inr (fresh_one, live, (timers, armed, done))) ↦
        rw done (entered call c i e timers at (here, free) fresh_one live armed)
  ]

  wake-Change :
      (t : ℕ) (w : Timer K) (s : Storage K A)
      → get_elem? s.timers t ≡ some w
      → Change s [] (wake t w s)
  unfolding wake
  wake-Change t w s at = elim (Bool-cases w.cancelled) [
    | inl off ↦ rw off (woken t w ended at (inl refl))
    | inr on ↦ elim (Bool-cases (is_some w.context.deadline || leb w.deadline s.now)) [
      | inl due ↦ rw (on, due) (woken t w awake at (inr refl))
      | inr early ↦ rw (on, early) stays
    ]
  ]

  claim-Change :
      (t : ℕ) (w : Timer K) (e : Entry A) (s : Storage K A) (o : Option ℕ)
      → get_elem? s.timers t ≡ some w
      → w.watch ≡ awake
      → Free w.item e s
      → e.item.processed ≡ false
      → Change s (claim_expiry t w e s o).0 (claim_expiry t w e s o).1
  claim-Change t w e s none at st free fresh_one = claimed t w e at st free fresh_one
  claim-Change t w e s (some deadline) at st free fresh_one = postponed t w deadline at

  expire-Change :
      (t : ℕ) (w : Timer K) (s u : Storage K A) (seen : List (Seen K A))
      → get_elem? s.timers t ≡ some w
      → w.watch ≡ awake
      → expire t w s ≡ (seen, u)
      → Change s seen u
  expire-Change t w s u seen at st h = elim (expire-cases t w s u seen h) [
    | inl (nothing, same) ↦ rw (nothing, same) stays
    | inr (e, here, free, inl (nothing, done)) ↦ rw (nothing, done) (woken t w ended at (inl refl))
    | inr (e, here, free, inr (fresh_one, done)) ↦
        subst (λ (p : List (Seen K A) × Storage K A). Change s p.0 p.1) (sym done)
          (claim-Change t w e s (renewed s.now w e) at st (here, free) fresh_one)
  ]

  move-Change :
      (call : ℕ) (processed : Bool) (c : Call K A) (st : Stage) (s t : Storage K A)
      → (seen : List (Seen K A)) → At call c st s
      → move call processed c st s ≡ some (seen, t)
      → Change s seen t
  unfolding move
  move-Change call b c admitting s t seen at h = from_some (admit-Change call c s at) h
  move-Change call b c (waiting i) s t seen at h =
      let (u, ok, after) = bind-some (deliver call c i s) quiet (seen, t) h in
      from_some (deliver-Change call c i s u at ok) after
  move-Change call b c (invoking i) s t seen at h = from_some (finished call c i b at) h
  move-Change call b c (retiring i) s t seen at h = from_some (retried call c i at) h
  move-Change call b c (removing i) s t seen at h = from_some (left call c i at) h
  move-Change call b c returned s t seen at h = from_some stays h

  move_timer-Change :
      (t : ℕ) (w : Timer K) (st : Watch) (s u : Storage K A) (seen : List (Seen K A))
      → get_elem? s.timers t ≡ some w
      → w.watch ≡ st
      → ◌≡◌ {A = Outcome K A} (some (move_timer t w st s)) (some (seen, u))
      → Change s seen u
  unfolding move_timer
  move_timer-Change t w sleeping s u seen at st h = from_some (wake-Change t w s at) h
  move_timer-Change t w awake s u seen at st h = expire-Change t w s u seen at st (some_eq h)
  move_timer-Change t w calling s u seen at st h = from_some (evicted t w at st) h
  move_timer-Change t w ended s u seen at st h = from_some stays h

  -- Every step of the storage that does not panic is one of the step relation.
  pub step-Change :
      (x : Step K A) (s t : Storage K A) (seen : List (Seen K A))
      → step x s ≡ some (seen, t)
      → Change s seen t
  unfolding step
  step-Change (starts context k index value callback ttl renew) s t seen h =
      from_some (begun (start_call context k index value callback ttl renew s) refl) h
    where
      begun :
          (u : Storage K A)
          → start_call context k index value callback ttl renew s ≡ u
          → Change s [] u
      begun u e = rw (← e) (unfold start_call in started _ refl)
  step-Change (moves call processed) s t seen h = elim (Option-cases (get_elem? s.calls call)) [
    | inl missing ↦ from_some stays (sym (rw (missing, step) refl) ∙ h)
    | inr (c, at) ↦
        move-Change call processed c c.stage s t seen (at, refl) (sym (rw (at, step) refl) ∙ h)
  ]
  step-Change (wakes n) s t seen h = elim (Option-cases (get_elem? s.timers n)) [
    | inl missing ↦ from_some stays (sym (rw (missing, step) refl) ∙ h)
    | inr (w, at) ↦ move_timer-Change n w w.watch s t seen at refl (sym (rw (at, step) refl) ∙ h)
  ]
  step-Change (ticks n) s t seen h = from_some (ticked n) h

  -- Any number of steps, with all that the callbacks saw.
  pub data Reaches : Storage K A → List (Seen K A) → Storage K A → Type (ℓ ⊔ κ) where
    here : (s : Storage K A) → Reaches s [] s
    next :
        {s t u : Storage K A} {a b : List (Seen K A)}
        → Change s a t
        → Reaches t b u
        → Reaches s (a ++ b) u

  pub run-Reaches :
      (xs : List (Step K A)) (s t : Storage K A) (seen : List (Seen K A))
      → run xs s ≡ some (seen, t)
      → Reaches s seen t
  unfolding run
  run-Reaches [] s t seen h =
      subst (λ (p : List (Seen K A) × Storage K A). Reaches s p.0 p.1) (some_eq h) (here s)
  run-Reaches (x ∷ xs) s t seen h =
      let ((a, u), ok, after) =
        bind-some (step x s) (λ r. run xs r.1 >>= λ q. some (r.0 ++ q.0, q.1)) (seen, t) h in
      let ((b, v), more, same) = bind-some (run xs u) (λ q. some (a ++ q.0, q.1)) (seen, t) after in
      subst (λ (p : List (Seen K A) × Storage K A). Reaches s p.0 p.1) (some_eq same)
        (next (step-Change x s u a ok) (run-Reaches xs u v b more))

  -- What every step keeps holds after any number of them.
  pub Reaches-keeps {μ} :
      (P : Storage K A → Type μ)
      → ((s t : Storage K A) (seen : List (Seen K A)) → Change s seen t → P s → P t)
      → {s t : Storage K A} {seen : List (Seen K A)} → Reaches s seen t
      → P s
      → P t
  Reaches-keeps P k (here s) p = p
  Reaches-keeps P k (next {s = s} {t = t} {a = a} d r) p = Reaches-keeps P k r (k s t a d p)
