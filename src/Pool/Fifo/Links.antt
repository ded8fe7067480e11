-- ===== src/Pool/Fifo/Links.antt =====
-- Runs of linked nodes in the entries of a FIFO queue, and how a write to one node changes them.
use rustservicelib.Base.{
  ℕ, List, [], ◌∷◌, ◌++◌, Option, some, Bool, true, false, ◌==◌, nat_eq, if◌then◌else◌, lookup,
  insert, remove, modify, arith, ◌≡◌, refl, lookup-modify, Bool-cases, inl, inr, lookup-modify_ne,
  ◌∙◌, lookup-insert, lookup-remove,
}
use rustservicelib.Pool.Fifo.{FifoEntry, set_next, set_previous}

module _ {ℓ} {E : Type ℓ} where
  -- The id of the first pair, or what follows.
  abbrev pub first : List (ℕ × E) → Option ℕ → Option ℕ
  first [] n = n
  first ((i, e) ∷ xs) n = some i

  -- The id of the last pair, or what stands before.
  abbrev pub last : Option ℕ → List (ℕ × E) → Option ℕ
  last p [] = p
  last p ((i, e) ∷ xs) = last (some i) xs

  abbrev pub mem : ℕ → List (ℕ × E) → Bool
  mem k [] = false
  mem k ((i, e) ∷ xs) = if i == k then true else mem k xs

  abbrev pub Distinct : List (ℕ × E) → Type 0
  Distinct [] = Unit
  Distinct ((i, e) ∷ xs) = (mem i xs ≡ false) × Distinct xs

  -- The nodes of `xs` are linked in order, after `p` and before `n`.
  abbrev pub Seg : List (ℕ × FifoEntry E) → Option ℕ → List (ℕ × E) → Option ℕ → Type ℓ
  Seg m p [] n = Unit
  Seg m p ((i, e) ∷ xs) n =
      (lookup i m ≡ some (record { entry = e; previous = p; next = first xs n }))
      × Seg m (some i) xs n

  pub Seg-modify :
      (k : ℕ) (g : FifoEntry E → FifoEntry E) (m : List (ℕ × FifoEntry E)) (p : Option ℕ)
      (xs : List (ℕ × E)) (n : Option ℕ)
      → mem k xs ≡ false
      → Seg m p xs n
      → Seg (modify k g m) p xs n
  Seg-modify k g m p [] n h s = tt
  Seg-modify k g m p ((i, e) ∷ xs) n h s =
      ground (arith, lookup-modify k i g m, Seg-modify k g m (some i) xs n)

  pub Seg-insert :
      (k : ℕ) (v : FifoEntry E) (m : List (ℕ × FifoEntry E)) (p : Option ℕ) (xs : List (ℕ × E))
      (n : Option ℕ)
      → mem k xs ≡ false
      → Seg m p xs n
      → Seg (insert k v m) p xs n
  Seg-insert k v m p [] n h s = tt
  Seg-insert k v m p ((i, e) ∷ xs) n h s =
      ground (arith, lookup-insert k i v m, Seg-insert k v m (some i) xs n)

  pub Seg-remove :
      (k : ℕ) (m : List (ℕ × FifoEntry E)) (p : Option ℕ) (xs : List (ℕ × E)) (n : Option ℕ)
      → mem k xs ≡ false
      → Seg m p xs n
      → Seg (remove k m) p xs n
  Seg-remove k m p [] n h s = tt
  Seg-remove k m p ((i, e) ∷ xs) n h s =
      ground (arith, lookup-remove k i m, Seg-remove k m (some i) xs n)

  pub first-append :
      (xs ys : List (ℕ × E)) (n : Option ℕ) → first (xs ++ ys) n ≡ first xs (first ys n)
  first-append [] ys n = refl
  first-append ((i, e) ∷ xs) ys n = refl

  pub last-append : (p : Option ℕ) (xs ys : List (ℕ × E)) → last p (xs ++ ys) ≡ last (last p xs) ys
  last-append p [] ys = refl
  last-append p ((i, e) ∷ xs) ys = last-append (some i) xs ys

  pub mem-append :
      (k : ℕ) (xs ys : List (ℕ × E)) → mem k (xs ++ ys) ≡ (if mem k xs then true else mem k ys)
  mem-append k [] ys = refl
  mem-append k ((i, e) ∷ xs) ys = ground (arith, mem-append k xs ys)

  -- Adjacent runs are one run.
  pub Seg-split :
      (m : List (ℕ × FifoEntry E)) (p : Option ℕ) (xs ys : List (ℕ × E)) (n : Option ℕ)
      → Seg m p (xs ++ ys) n
      → Seg m p xs (first ys n) × Seg m (last p xs) ys n
  Seg-split m p [] ys n s = (tt, s)
  Seg-split m p ((i, e) ∷ xs) ys n s =
      ground (arith, first-append xs ys n, Seg-split m (some i) xs ys n)

  pub Seg-join :
      (m : List (ℕ × FifoEntry E)) (p : Option ℕ) (xs ys : List (ℕ × E)) (n : Option ℕ)
      → Seg m p xs (first ys n)
      → Seg m (last p xs) ys n
      → Seg m p (xs ++ ys) n
  Seg-join m p [] ys n s t = t
  Seg-join m p ((i, e) ∷ xs) ys n s t =
      ground (arith, first-append xs ys n, Seg-join m (some i) xs ys n)

  pub mem-last :
      (i l : ℕ) (e : E) (p : Option ℕ) (xs : List (ℕ × E))
      → last p ((i, e) ∷ xs) ≡ some l
      → mem l ((i, e) ∷ xs) ≡ true
  mem-last i l e p [] h = ground arith
  mem-last i l e p ((j, f) ∷ xs) h = ground (arith, mem-last j l f (some i) xs)

  pub ne_of_mem :
      (i l : ℕ) (xs : List (ℕ × E)) → mem i xs ≡ false → mem l xs ≡ true → (l == i) ≡ false
  ne_of_mem i l [] h k = cc
  ne_of_mem i l ((j, f) ∷ xs) h k = ground (arith, ne_of_mem i l xs)

  -- The link out of a run's last node.
  pub Seg-set_next :
      (m : List (ℕ × FifoEntry E)) (p : Option ℕ) (i l : ℕ) (e : E) (xs : List (ℕ × E))
      (n n' : Option ℕ)
      → last p ((i, e) ∷ xs) ≡ some l
      → Distinct ((i, e) ∷ xs)
      → Seg m p ((i, e) ∷ xs) n
      → Seg (modify l (set_next n') m) p ((i, e) ∷ xs) n'
  Seg-set_next m p i l e [] n n' h d s = ground (arith, lookup-modify l i (set_next n') m)
  Seg-set_next m p i l e ((j, f) ∷ xs) n n' h d s =
      let other = ne_of_mem i l ((j, f) ∷ xs) d.0 (mem-last j l f (some i) xs h) in
      (
        lookup-modify_ne l i (set_next n') m other ∙ s.0,
        Seg-set_next m (some i) j l f xs n n' h d.1 s.1,
      )

  -- The link back from a run's first node.
  pub Seg-set_previous :
      (m : List (ℕ × FifoEntry E)) (p p' : Option ℕ) (i : ℕ) (e : E) (xs : List (ℕ × E))
      (n : Option ℕ)
      → mem i xs ≡ false
      → Seg m p ((i, e) ∷ xs) n
      → Seg (modify i (set_previous p') m) p' ((i, e) ∷ xs) n
  Seg-set_previous m p p' i e xs n d s =
      ground (
        arith,
        lookup-modify i i (set_previous p') m,
        Seg-modify i (set_previous p') m (some i) xs n,
      )

  -- A node in the middle of a list without repetitions.
  pub Distinct-middle :
      (xs : List (ℕ × E)) (i : ℕ) (e : E) (ys : List (ℕ × E))
      → Distinct (xs ++ (i, e) ∷ ys)
      → (mem i xs ≡ false) × (mem i ys ≡ false) × Distinct xs × Distinct (xs ++ ys)
  Distinct-middle [] i e ys d = ground arith
  Distinct-middle ((j, f) ∷ xs) i e ys d =
      ground
        (arith, Distinct-middle xs i e ys d.1, mem-append j xs ((i, e) ∷ ys), mem-append j xs ys)

  pub Distinct-suffix : (xs ys : List (ℕ × E)) → Distinct (xs ++ ys) → Distinct ys
  Distinct-suffix [] ys d = d
  Distinct-suffix (x ∷ xs) ys d = Distinct-suffix xs ys d.1

  -- What stands before and what stands after share no id.
  pub mem_suffix :
      (k : ℕ) (xs ys : List (ℕ × E)) → Distinct (xs ++ ys) → mem k xs ≡ true → mem k ys ≡ false
  mem_suffix k [] ys d h = cc
  mem_suffix k ((j, f) ∷ xs) ys d h = ground (arith, mem-append j xs ys, mem_suffix k xs ys d.1)

  pub last-some : (i : ℕ) (xs : List (ℕ × E)) → (l : ℕ) × (last (some i) xs ≡ some l)
  last-some i [] = (i, refl)
  last-some i ((j, f) ∷ xs) = last-some j xs

  pub Seg-lookup :
      (k : ℕ) (m : List (ℕ × FifoEntry E)) (p : Option ℕ) (xs : List (ℕ × E)) (n : Option ℕ)
      → mem k xs ≡ true
      → Seg m p xs n
      → (node : FifoEntry E) × (lookup k m ≡ some node)
  Seg-lookup k m p [] n h s = cc
  Seg-lookup k m p ((i, e) ∷ xs) n h s = elim (Bool-cases (i == k)) [
    | inl same ↦ (
      record { entry = e; previous = p; next = first xs n },
      let e' : i ≡ k = (nat_eq.beq_iff i k).0 same in rw (← e') s.0,
    )
    | inr other ↦ Seg-lookup k m (some i) xs n (ground arith) s.1
  ]

  pub mem-append_false :
      (k : ℕ) (xs ys : List (ℕ × E))
      → mem k (xs ++ ys) ≡ false
      → (mem k xs ≡ false) × (mem k ys ≡ false)
  mem-append_false k [] ys h = (refl, h)
  mem-append_false k ((j, f) ∷ xs) ys h = ground (arith, mem-append_false k xs ys)

  pub Distinct-snoc :
      (id : ℕ) (e : E) (xs : List (ℕ × E))
      → mem id xs ≡ false
      → Distinct xs
      → Distinct (xs ++ (id, e) ∷ [])
  Distinct-snoc id e [] h d = (refl, tt)
  Distinct-snoc id e ((j, f) ∷ xs) h d =
      ground (arith, mem-append j xs ((id, e) ∷ []), Distinct-snoc id e xs)
