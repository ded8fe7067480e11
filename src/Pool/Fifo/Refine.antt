-- ===== src/Pool/Fifo/Refine.antt =====
-- The linked FIFO queue refines a list of tasks, oldest first.
use rustservicelib.Base.{
  ℕ, List, [], ◌∷◌, ◌++◌, none, some, Bool-cases, lookup-remove_ne, false, ◌==◌, nat_eq, lookup,
  insert, remove, modify, arith, ◌≡◌, refl, sym, inl, inr, lookup-insert_self, lookup-modify-none,
  length-insert_new, length-remove_found, lookup-insert_ne, ◌∙◌, lookup-remove, length,
  length-modify, length-append, IsMap, insert-IsMap, remove-IsMap, modify-IsMap,
}
use rustservicelib.Pool.Fifo.{FifoEntry, Fifo, set_next, set_previous, new, push, pop}
use rustservicelib.Pool.Fifo.Runs.{push_run, pop_run}
use rustservicelib.Pool.Fifo.Links.{
  first, last, mem, Distinct, Seg, Seg-insert, Seg-remove, Seg-join, Seg-set_next, Seg-set_previous,
  mem-append_false, Distinct-snoc, last-some, mem-last, Seg-lookup, last-append,
}

module _ {ℓ} {E : Type ℓ} where
  -- The queue holds the tasks `xs`, oldest first.
  pub record Represents (q : Fifo E) (xs : List (ℕ × E)) : Type ℓ where
    pub linked : Seg q.entries none xs none
    pub head_first : q.head ≡ first xs none
    pub tail_last : q.tail ≡ last none xs
    pub distinct : Distinct xs
    pub is_map : IsMap q.entries
    pub covered : (k : ℕ) → mem k xs ≡ false → lookup k q.entries ≡ none
    pub counted : length q.entries ≡ length xs

  pub new-Represents : Represents new []
  unfolding new lookup
  new-Represents = record {
    linked = tt;
    head_first = refl;
    tail_last = refl;
    distinct = tt;
    is_map = tt;
    covered = λ k h. refl;
    counted = refl;
  }

  mem_single : (id k : ℕ) (e : E) → mem k ((id, e) ∷ []) ≡ false → (id == k) ≡ false
  mem_single id k e h = ground arith

  push_empty :
      (id : ℕ) (e : E) (q : Fifo E)
      → Represents q []
      → (r : Fifo E) × (push id e q ≡ some r) × Represents r ((id, e) ∷ [])
  unfolding push
  push_empty id e q h = (
    record {
      entries = insert id (record { entry = e; previous = none; next = none }) q.entries;
      head = some id;
      tail = some id;
    },
    ground (arith, h.tail_last),
    record {
      linked = (lookup-insert_self id _ q.entries, tt);
      head_first = refl;
      tail_last = refl;
      distinct = (refl, tt);
      is_map = insert-IsMap id _ q.entries h.is_map;
      covered =
          λ k miss. lookup-insert_ne id k _ q.entries (mem_single id k e miss) ∙ h.covered k refl;
      counted = length-insert_new id _ q.entries (h.covered id refl) ∙ omega (arith, h.counted);
    },
  )

  push_more :
      (id : ℕ) (e : E) (i : ℕ) (f : E) (ys : List (ℕ × E)) (q : Fifo E)
      → mem id ((i, f) ∷ ys) ≡ false
      → Represents q ((i, f) ∷ ys)
      → (r : Fifo E) × (push id e q ≡ some r) × Represents r ((i, f) ∷ ys ++ (id, e) ∷ [])
  unfolding push
  push_more id e i f ys q fresh h =
      let (l, l_last) = last-some i ys in
      let t : q.tail ≡ some l = h.tail_last ∙ l_last in
      let (old, found) =
        Seg-lookup l q.entries none ((i, f) ∷ ys) none (mem-last i l f none ys l_last) h.linked in
      let m : List (ℕ × FifoEntry E) = modify l (set_next (some id)) q.entries in
      let node : FifoEntry E = record { entry = e; previous = some l; next = none } in
      (
        record { entries = insert id node m; head = q.head; tail = some id },
        push_run id l e q old t found,
        record {
          linked =
              Seg-join (insert id node m) none ((i, f) ∷ ys) ((id, e) ∷ []) none
                (Seg-insert id node m none ((i, f) ∷ ys) (some id) fresh
                  (Seg-set_next q.entries none i l f ys none (some id) l_last h.distinct h.linked))
                (rw l_last (lookup-insert_self id node m, tt));
          head_first = h.head_first;
          tail_last = sym (last-append (some i) ys ((id, e) ∷ []));
          distinct = Distinct-snoc id e ((i, f) ∷ ys) fresh h.distinct;
          is_map = insert-IsMap id node m (modify-IsMap l _ q.entries h.is_map);
          covered = λ k miss.
              let (mine, its) = mem-append_false k ((i, f) ∷ ys) ((id, e) ∷ []) miss in
              lookup-insert_ne id k node m (mem_single id k e its)
              ∙ lookup-modify-none l k (set_next (some id)) q.entries (h.covered k mine);
          counted =
              length-insert_new id node m
                (lookup-modify-none l id (set_next (some id)) q.entries (h.covered id fresh))
              ∙ omega (
                arith,
                length-modify l (set_next (some id)) q.entries,
                h.counted,
                length-append ys ((id, e) ∷ []),
              );
        },
      )

  -- A push of a new id adds the task at the end, and never panics.
  pub push-Represents :
      (id : ℕ) (e : E) (q : Fifo E) (xs : List (ℕ × E))
      → mem id xs ≡ false
      → Represents q xs
      → (r : Fifo E) × (push id e q ≡ some r) × Represents r (xs ++ (id, e) ∷ [])
  push-Represents id e q [] fresh h = push_empty id e q h
  push-Represents id e q ((i, f) ∷ ys) fresh h = push_more id e i f ys q fresh h

  -- A pop takes the oldest task off, says `None` on the empty queue, and never panics.
  pub pop-Represents_empty : (q : Fifo E) → Represents q [] → pop q ≡ some (none, q)
  unfolding pop
  pop-Represents_empty q h = rw (h.head_first)

  pop_last :
      (i : ℕ) (e : E) (q : Fifo E)
      → Represents q ((i, e) ∷ [])
      → (r : Fifo E) × (pop q ≡ some (some (i, e), r)) × Represents r []
  unfolding pop
  pop_last i e q h = (
    record { entries = remove i q.entries; head = none; tail = none },
    rw (h.head_first) (rw (h.linked.0) refl),
    record {
      linked = tt;
      head_first = refl;
      tail_last = refl;
      distinct = tt;
      is_map = remove-IsMap i q.entries h.is_map;
      covered = λ k miss. elim (Bool-cases (i == k)) [
        | inl same ↦ lookup-remove i k q.entries ∙ rw same
        | inr other ↦ lookup-remove_ne i k q.entries other ∙ h.covered k (ground arith)
      ];
      counted = omega (arith, h.counted, length-remove_found i _ q.entries h.is_map h.linked.0);
    },
  )

  pop_more :
      (i : ℕ) (e : E) (j : ℕ) (f : E) (ys : List (ℕ × E)) (q : Fifo E)
      → Represents q ((i, e) ∷ (j, f) ∷ ys)
      → (r : Fifo E) × (pop q ≡ some (some (i, e), r)) × Represents r ((j, f) ∷ ys)
  unfolding pop
  pop_more i e j f ys q h =
      let m : List (ℕ × FifoEntry E) = remove i q.entries in
      let s : Seg m (some i) ((j, f) ∷ ys) none =
        Seg-remove i q.entries (some i) ((j, f) ∷ ys) none h.distinct.0 h.linked.1 in
      let m' : List (ℕ × FifoEntry E) = modify j (set_previous none) m in
      (
        record { entries = m'; head = some j; tail = q.tail },
        pop_run i j e q _ h.head_first h.linked.0 s.0,
        record {
          linked = Seg-set_previous m (some i) none j f ys none h.distinct.1.0 s;
          head_first = refl;
          tail_last = h.tail_last;
          distinct = h.distinct.1;
          is_map = modify-IsMap j _ m (remove-IsMap i q.entries h.is_map);
          covered = λ k miss.
              lookup-modify-none j k (set_previous none) m (elim (Bool-cases (i == k)) [
                | inl same ↦ lookup-remove i k q.entries ∙ rw same
                | inr other ↦ lookup-remove_ne i k q.entries other ∙ h.covered k (rw other miss)
              ]);
          counted = omega (
            arith,
            h.counted,
            length-modify j (set_previous none) m,
            length-remove_found i _ q.entries h.is_map h.linked.0,
          );
        },
      )

  pub pop-Represents :
      (i : ℕ) (e : E) (xs : List (ℕ × E)) (q : Fifo E)
      → Represents q ((i, e) ∷ xs)
      → (r : Fifo E) × (pop q ≡ some (some (i, e), r)) × Represents r xs
  pop-Represents i e [] q h = pop_last i e q h
  pop-Represents i e ((j, f) ∷ ys) q h = pop_more i e j f ys q h
