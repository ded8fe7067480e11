-- ===== src/Store/Join/Alone.antt =====
-- A call of src/runtime/store/hashmap.rs that no other call and no expiry task disturbs returns.
use rustservicelib.Base.{
  some_eq, bind-some, ℕ, zero, suc, List, [], ◌∷◌, ◌++◌, Option, none, some, Bool, true, false, Eq,
  nat_eq, beq_refl, ltb, get_elem?, modify_at, map_option, get_elem?-modify_at,
  get_elem?-append_length, length, replicate, lookup, lookup-remove, is_some, if◌then◌else◌, ◌&&◌,
  ◌||◌, ◌>>=◌, ◌≡◌, refl, sym, ◌∙◌, ap, inl, inr, ◌⊎◌, Bool-cases, Option-cases, arith,
}
use rustservicelib.Store.Join.{
  Entry, Stage, Call, Timer, Storage, Seen, admitting, waiting, invoking, retiring, removing,
  returned, is_empty, is_expired, go, fresh, to_stage, live_entry, admitted, remove_if_same,
  arm_expiry, armed_timer,
}
use rustservicelib.Store.Join.Steps.{
  moves, Outcome, accepted, deliver, finish, move, step, run, quiet,
}
use rustservicelib.Store.Join.Cases.{deliver_free}
use rustservicelib.Store.Join.Changes.{At}

if_none : (b : Bool) (j i : ℕ) → (if b then none else some j) ≡ some i → (b ≡ false) × (j ≡ i)
if_none true j i h = absurd cc
if_none false j i h = (refl, some_eq h)

module _ {ℓ κ} {K : Type ℓ} {A : Type κ} where
  -- A group whose first value may start an expiry task has a deadline for it.
  abbrev pub IsArmable : Call K A → Entry A → Type 0
  IsArmable c e =
      (is_empty e.item.values ≡ false)
      ⊎ (is_some e.deadline ≡ true)
      ⊎ (ltb 0 c.effective_ttl ≡ false)

  arm_expiry_lem :
      (i : ℕ) (c : Call K A) (e : Entry A) (timers : List (Timer K))
      → IsArmable c e
      → (after : List (Timer K)) × (arm_expiry i c e timers ≡ some after)
  unfolding arm_expiry
  arm_expiry_lem i c e timers (inl later) = (timers, rw later refl)
  arm_expiry_lem i c e timers (inr (inl timed)) =
      elim (Bool-cases (is_empty e.item.values && ltb 0 c.effective_ttl)) [
        | inl arms ↦ elim (Option-cases e.deadline) [
          | inl missing ↦ absurd (ground (arith, timed, missing))
          | inr (deadline, at) ↦ (timers ++ armed_timer i c e deadline ∷ [], rw arms (rw at refl))
        ]
        | inr quiet ↦ (timers, rw quiet refl)
      ]
  arm_expiry_lem i c e timers (inr (inr untimed)) = (timers, ground (arith, untimed))

  go_at :
      (call : ℕ) (st : Stage) (c : Call K A) (calls : List (Call K A))
      → get_elem? calls call ≡ some c
      → get_elem? (modify_at call (go st) calls) call ≡ some (go st c)
  go_at call st c calls at = get_elem?-modify_at call (go st) calls ∙ ap (map_option (go st)) at

  module _ ⦃eq : Eq K⦄ where
    -- The moves of a call take it to its return.
    abbrev pub Ends : ℕ → ℕ → Bool → Storage K A → Type (ℓ ⊔ κ)
    Ends n call b s =
        (seen : List (Seen K A)) × (t : Storage K A) × (c : Call K A) × (run
            (replicate n (moves call b)) s
          ≡ some (seen, t))
        × (get_elem? t.calls call ≡ some c)
        × (c.stage ≡ returned)

    then-Ends :
        (n call : ℕ) (b : Bool) (s u : Storage K A) (a : List (Seen K A))
        → ◌≡◌ {A = Outcome K A} (step (moves call b) s) (some (a, u))
        → Ends n call b u
        → Ends (suc n) call b s
    unfolding run
    then-Ends n call b s u a h (seen, t, c, more, at, done) =
        (a ++ seen, t, c, rw (h, more) refl, at, done)

    step-At :
        (call : ℕ) (b : Bool) (s : Storage K A) (c : Call K A) (st : Stage)
        → At call c st s
        → step (moves call b) s ≡ move call b c st s
    unfolding step
    step-At call b s c st (at, is) = rw (at, step) (rw is refl)

    returned-Ends :
        (n call : ℕ) (b : Bool) (s : Storage K A) (c : Call K A)
        → At call c returned s
        → Ends n call b s
    unfolding run move
    returned-Ends zero call b s c at = ([], s, c, refl, at.0, at.1)
    returned-Ends (suc n) call b s c at =
        then-Ends n call b s s [] (step-At call b s c returned at) (returned-Ends n call b s c at)

    removing-Ends :
        (n call i : ℕ) (b : Bool) (s : Storage K A) (c : Call K A)
        → At call c (removing i) s
        → Ends (suc n) call b s
    unfolding move
    removing-Ends n call i b s c at =
        let u : Storage K A = record (to_stage call returned s) {
          items = remove_if_same c.key i s.items;
        } in
        then-Ends n call b s u [] (step-At call b s c (removing i) at)
          (returned-Ends n call b u (go returned c) (go_at call returned c s.calls at.0, refl))

    invoking-Ends :
        (n call i : ℕ) (b : Bool) (s : Storage K A) (c : Call K A)
        → At call c (invoking i) s
        → Ends (suc (suc n)) call b s
    unfolding move finish
    invoking-Ends n call i true s c at =
        then-Ends (suc n) call true s (finish call c i true s) _
          (step-At call true s c (invoking i) at)
          (removing-Ends n call i true (finish call c i true s) (go (removing i) c)
            (go_at call (removing i) c s.calls at.0, refl))
    invoking-Ends n call i false s c at =
        then-Ends (suc n) call false s (finish call c i false s) _
          (step-At call false s c (invoking i) at)
          (returned-Ends (suc n) call false (finish call c i false s) (go returned c)
            (go_at call returned c s.calls at.0, refl))

    waiting-Ends :
        (n call i : ℕ) (b : Bool) (s : Storage K A) (c : Call K A) (e : Entry A)
        → At call c (waiting i) s
        → get_elem? s.entries i ≡ some e
        → e.holder ≡ none
        → e.item.processed ≡ false
        → is_expired s.now e.deadline ≡ false
        → IsArmable c e
        → Ends (suc (suc (suc n))) call b s
    unfolding move
    waiting-Ends n call i b s c e at there free fresh_one live armable =
        let (timers, armed) = arm_expiry_lem i c e s.timers armable in
        let u = accepted call c i s timers in
        let live_one : (e.item.processed || is_expired s.now e.deadline) ≡ false =
          ground (arith, fresh_one, live) in
        let enters : deliver call c i s ≡ some u =
          deliver_free call c i e s there free ∙ rw (live_one, armed) refl in
        then-Ends (suc (suc n)) call b s u []
          (step-At call b s c (waiting i) at ∙ ap (λ o. o >>= quiet) enters)
          (invoking-Ends n call i b u (go (invoking i) c)
            (go_at call (invoking i) c s.calls at.0, refl))

    fresh_lives : (now : ℕ) (c : Call K A) → is_expired now (fresh now c).deadline ≡ false
    unfolding fresh is_expired
    fresh_lives now c = ground arith

    fresh-IsArmable : (now : ℕ) (c : Call K A) → IsArmable c (fresh now c)
    unfolding fresh
    fresh-IsArmable now c = elim (Bool-cases (ltb 0 c.effective_ttl)) [
      | inl timed ↦ inr (inl (rw timed refl))
      | inr untimed ↦ inr (inr untimed)
    ]

    -- A call that finds no group makes one, which takes its value.
    absent-Ends :
        (n call : ℕ) (b : Bool) (s : Storage K A) (c : Call K A)
        → At call c admitting s
        → live_entry c.key s ≡ none
        → Ends (suc (suc (suc (suc n)))) call b s
    unfolding move
    absent-Ends n call b s c at gone =
        let i = length s.entries in
        let u = admitted call c none s in
        then-Ends (suc (suc (suc n))) call b s u []
          (step-At call b s c admitting at ∙ ap (λ o. quiet (admitted call c o s)) gone)
          (waiting-Ends n call i b u (go (waiting i) c) (fresh s.now c)
            (go_at call (waiting i) c s.calls at.0, refl)
            (get_elem?-append_length (fresh s.now c) s.entries) (unfold fresh in refl)
            (unfold fresh in refl) (fresh_lives s.now c) (fresh-IsArmable s.now c))

    live_entry-some :
        (k : K) (i : ℕ) (s : Storage K A)
        → live_entry k s ≡ some i
        → (e : Entry A) × (lookup k s.items ≡ some i)
          × (get_elem? s.entries i ≡ some e)
          × (is_expired s.now e.deadline ≡ false)
    unfolding live_entry
    live_entry-some k i s h =
        let unexpired : ℕ → Entry A → Option ℕ =
          λ j e. if is_expired s.now e.deadline then none else some j in
        let (j, there, h') =
          bind-some (lookup k s.items) (λ j. get_elem? s.entries j >>= unexpired j) i h in
        let (e, at, h'') = bind-some (get_elem? s.entries j) (unexpired j) i h' in
        let (live, same) = if_none (is_expired s.now e.deadline) j i h'' in
        (e, there ∙ ap some same, ap (get_elem? s.entries) (sym same) ∙ at, live)

    removed-absent :
        (k : K) (i : ℕ) (s : Storage K A)
        → lookup k s.items ≡ some i
        → live_entry k (record s { items = remove_if_same k i s.items }) ≡ none
    unfolding live_entry remove_if_same
    removed-absent k i s h =
        ap
          (λ o. o >>= λ j.
            get_elem? s.entries j >>= λ e. if is_expired s.now e.deadline then none else some j)
          (gone (Option-cases (lookup k s.items)))
      where
        gone :
            (lookup k s.items ≡ none) ⊎ ((j : ℕ) × (lookup k s.items ≡ some j))
            → lookup k (remove_if_same k i s.items) ≡ none
        gone o =
            rw (h, remove_if_same)
              (rw (beq_refl i) (lookup-remove k k s.items ∙ rw (beq_refl k) refl))

    -- A call that finds a group which has ended retires it and makes a new one.
    processed-Ends :
        (call i : ℕ) (b : Bool) (s : Storage K A) (c : Call K A) (e : Entry A)
        → At call c (waiting i) s
        → lookup c.key s.items ≡ some i
        → get_elem? s.entries i ≡ some e
        → e.holder ≡ none
        → e.item.processed ≡ true
        → Ends 6 call b s
    unfolding move
    processed-Ends call i b s c e at kept there free over =
        let u = to_stage call (retiring i) s in
        let v : Storage K A = record (to_stage call admitting u) {
          items = remove_if_same c.key i s.items;
        } in
        let over_one : (e.item.processed || is_expired s.now e.deadline) ≡ true =
          ground (arith, over) in
        let misses : deliver call c i s ≡ some u =
          deliver_free call c i e s there free ∙ rw over_one refl in
        let first = go_at call (retiring i) c s.calls at.0 in
        then-Ends 5 call b s u [] (step-At call b s c (waiting i) at ∙ ap (λ o. o >>= quiet) misses)
          (then-Ends 4 call b u v []
            (step-At call b u (go (retiring i) c) (retiring i) (first, refl))
            (absent-Ends 0 call b v (go admitting (go (retiring i) c))
              (go_at call admitting (go (retiring i) c) u.calls first, refl)
              (removed-absent c.key i (record v { items = s.items }) kept)))

    -- A call that is about to look for its group, where the lock of the entry that the map has for its
    -- key is free, and that entry, if it takes a first value with a time to live, has a deadline:
    -- seven moves of the call alone return, without a panic, whatever its callback answers and
    -- whether the group is open, has expired or has ended.
    pub call_returns :
        (call : ℕ) (b : Bool) (s : Storage K A) (c : Call K A)
        → get_elem? s.calls call ≡ some c
        → c.stage ≡ admitting
        → ((i : ℕ) (e : Entry A)
            → lookup c.key s.items ≡ some i
            → get_elem? s.entries i ≡ some e
            → (e.holder ≡ none) × IsArmable c e)
        → Ends 7 call b s
    unfolding move
    call_returns call b s c at st free = elim (Option-cases (live_entry c.key s)) [
      | inl gone ↦ absent-Ends 3 call b s c (at, st) gone
      | inr (i, live) ↦
          let (e, kept, there, early) = live_entry-some c.key i s live in
          let (unlocked, armable) = free i e kept there in
          let u = to_stage call (waiting i) s in
          let first =
            step-At call b s c admitting (at, st) ∙ ap (λ o. quiet (admitted call c o s)) live in
          let waits : At call (go (waiting i) c) (waiting i) u =
            (go_at call (waiting i) c s.calls at, refl) in
          then-Ends 6 call b s u [] first (elim (Bool-cases e.item.processed) [
            | inl over ↦
                processed-Ends call i b u (go (waiting i) c) e waits kept there unlocked over
            | inr alive ↦
                waiting-Ends 3 call i b u (go (waiting i) c) e waits there unlocked alive early
                  armable
          ])
    ]
