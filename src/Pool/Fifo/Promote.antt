-- ===== src/Pool/Fifo/Promote.antt =====
-- Moving a linked node to the front of a FIFO queue.
use rustservicelib.Base.{
  ℕ, List, [], ◌∷◌, ◌++◌, Option, none, some, true, false, ◌==◌, nat_eq, lookup, modify, arith, ◌≡◌,
  refl, ◌∙◌, sym, IsMap, modify-IsMap, length, length-modify, length-append, lookup-modify_self,
  lookup-modify_ne, lookup-modify-none,
}
use rustservicelib.Pool.Fifo.{FifoEntry, Fifo, set_next, set_previous, promote}
use rustservicelib.Pool.Fifo.Runs.{
  node_of, front_entries, promote_run_last, promote_run_middle, promote_run_head,
  promote_run_missing,
}
use rustservicelib.Pool.Fifo.Links.{
  first, last, mem, Distinct, Seg, Seg-modify, Seg-split, Seg-join, Seg-set_next, Seg-set_previous,
  Distinct-middle, mem_suffix, mem-append, mem-append_false, last-some, mem-last, Seg-lookup,
  ne_of_mem, last-append,
}
use rustservicelib.Pool.Fifo.Refine.{Represents}

module _ {ℓ} {E : Type ℓ} where
  mem_first : (h : ℕ) (f : E) (xs : List (ℕ × E)) → mem h ((h, f) ∷ xs) ≡ true
  mem_first h f xs = ground arith

  ne_head :
      (id h : ℕ) (f : E) (xs : List (ℕ × E)) → mem id ((h, f) ∷ xs) ≡ false → (h == id) ≡ false
  ne_head id h f xs m = ground arith

  front_Seg :
      (m : List (ℕ × FifoEntry E)) (id h : ℕ) (e f : E) (xs ys : List (ℕ × E)) (p n : Option ℕ)
      → mem id ((h, f) ∷ xs) ≡ false
      → mem id ys ≡ false
      → Distinct ((h, f) ∷ xs ++ ys)
      → Seg m none ((h, f) ∷ xs) (first ys none)
      → Seg m (last (some h) xs) ys none
      → lookup id m ≡ some (node_of e p n)
      → Seg (front_entries id h m) none ((id, e) ∷ (h, f) ∷ xs ++ ys) none
  front_Seg m id h e f xs ys p n fresh fresh' d sa sb found =
      let put : FifoEntry E → FifoEntry E =
        λ node. record node { previous = none; next = some h } in
      let m' : List (ℕ × FifoEntry E) = modify h (set_previous (some id)) m in
      let (no_as, no_bs) = mem-append_false h xs ys d.0 in
      let id_found : lookup id (modify id put m') ≡ some (node_of e none (some h)) =
        lookup-modify_self id put m'
        ∙ rw (lookup-modify_ne h id (set_previous (some id)) m (ne_head id h f xs fresh))
            (rw found) in
      (
        id_found,
        Seg-join (modify id put m') (some id) ((h, f) ∷ xs) ys none
            (Seg-modify id put m' (some id) ((h, f) ∷ xs) (first ys none) fresh
              (Seg-set_previous m none (some id) h f xs (first ys none) no_as sa))
            (Seg-modify id put m' (last (some h) xs) ys none fresh'
              (Seg-modify h (set_previous (some id)) m (last (some h) xs) ys none no_bs sb)),
      )

  mem_move :
      (k id : ℕ) (e : E) (xs ys : List (ℕ × E))
      → mem k ((id, e) ∷ xs ++ ys) ≡ mem k (xs ++ (id, e) ∷ ys)
  mem_move k id e xs ys = ground (arith, mem-append k xs ys, mem-append k xs ((id, e) ∷ ys))

  front_Represents :
      (q : Fifo E) (m : List (ℕ × FifoEntry E)) (t : Option ℕ) (id h : ℕ) (e f : E)
      (xs ys : List (ℕ × E)) (p n : Option ℕ)
      → Represents q (((h, f) ∷ xs) ++ (id, e) ∷ ys)
      → IsMap m
      → length m ≡ length q.entries
      → ((k : ℕ) → lookup k q.entries ≡ none → lookup k m ≡ none)
      → Seg m none ((h, f) ∷ xs) (first ys none)
      → Seg m (last (some h) xs) ys none
      → lookup id m ≡ some (node_of e p n)
      → t ≡ last (last (some h) xs) ys
      → Represents
          (record { entries = front_entries id h m; head = some id; tail = t })
          ((id, e) ∷ (h, f) ∷ xs ++ ys)
  front_Represents q m t id h e f xs ys p n rep is_map len missing sa sb found tl =
      let (no_as, no_bs, d_as, d) = Distinct-middle ((h, f) ∷ xs) id e ys rep.distinct in
      record {
        linked = front_Seg m id h e f xs ys p n no_as no_bs d sa sb found;
        head_first = refl;
        tail_last = tl ∙ sym (last-append (some h) xs ys);
        distinct = (mem-append id ((h, f) ∷ xs) ys ∙ rw (no_as, no_bs), d);
        is_map = modify-IsMap id _ _ (modify-IsMap h _ m is_map);
        covered = λ k miss. lookup-modify-none id k _ _ (
            lookup-modify-none h k _ m
              (missing k (rep.covered k (sym (mem_move k id e ((h, f) ∷ xs) ys) ∙ miss))));
        counted = omega (
          arith,
          length-modify id (λ node. record node { previous = none; next = some h })
              (modify h (set_previous (some id)) m),
          length-modify h (set_previous (some id)) m,
          len,
          rep.counted,
          length-append xs ((id, e) ∷ ys),
          length-append xs ys,
        );
      }

  promote_last :
      (q : Fifo E) (id h : ℕ) (e f : E) (xs : List (ℕ × E))
      → Represents q (((h, f) ∷ xs) ++ (id, e) ∷ [])
      → (r : Fifo E) × (promote id q ≡ some (true, r)) × Represents r ((id, e) ∷ (h, f) ∷ xs ++ [])
  promote_last q id h e f xs rep =
      let (l, l_last) = last-some h xs in
      let (no_as, no_bs, d_as, d) = Distinct-middle ((h, f) ∷ xs) id e [] rep.distinct in
      let (sa, rest) = Seg-split q.entries none ((h, f) ∷ xs) ((id, e) ∷ []) none rep.linked in
      let in_as = mem-last h l f none xs l_last in
      let (a, l_found) = Seg-lookup l q.entries none ((h, f) ∷ xs) (some id) in_as sa in
      let id_found : lookup id q.entries ≡ some (node_of e (some l) none) = rest.0 ∙ rw l_last in
      let m : List (ℕ × FifoEntry E) = modify l (set_next none) q.entries in
      let s = Seg-set_next q.entries none h l f xs (some id) none l_last d_as sa in
      let other = ne_of_mem id l ((h, f) ∷ xs) no_as in_as in
      let found : lookup id m ≡ some (node_of e (some l) none) =
        lookup-modify_ne l id (set_next none) q.entries other ∙ id_found in
      let h_ne = ne_head id h f xs no_as in
      (
        record { entries = front_entries id h m; head = some id; tail = some l },
        promote_run_last id h l e q a _ _ rep.head_first h_ne id_found l_found s.0
            (lookup-modify_ne h id (set_previous (some id)) m h_ne ∙ found),
        front_Represents q m (some l) id h e f xs [] (some l) none rep
            (modify-IsMap l _ q.entries rep.is_map) (length-modify l _ q.entries)
            (λ k. lookup-modify-none l k (set_next none) q.entries) s tt found (sym l_last),
      )

  promote_middle :
      (q : Fifo E) (id h n : ℕ) (e f g : E) (xs ys : List (ℕ × E))
      → Represents q (((h, f) ∷ xs) ++ (id, e) ∷ (n, g) ∷ ys)
      → (r : Fifo E) × (promote id q ≡ some (true, r))
        × Represents r ((id, e) ∷ (h, f) ∷ xs ++ (n, g) ∷ ys)
  promote_middle q id h n e f g xs ys rep =
      let (l, l_last) = last-some h xs in
      let (no_as, no_bs, d_as, d) = Distinct-middle ((h, f) ∷ xs) id e ((n, g) ∷ ys) rep.distinct in
      let (n_as, n_bs, _, _) = Distinct-middle ((h, f) ∷ xs) n g ys d in
      let (sa, rest) =
        Seg-split q.entries none ((h, f) ∷ xs) ((id, e) ∷ (n, g) ∷ ys) none rep.linked in
      let in_as = mem-last h l f none xs l_last in
      let l_bs = mem_suffix l ((h, f) ∷ xs) ((n, g) ∷ ys) d in_as in
      let (a, l_found) = Seg-lookup l q.entries none ((h, f) ∷ xs) (some id) in_as sa in
      let id_found : lookup id q.entries ≡ some (node_of e (some l) (some n)) =
        rest.0 ∙ rw l_last in
      let m : List (ℕ × FifoEntry E) = modify l (set_next (some n)) q.entries in
      let m' : List (ℕ × FifoEntry E) = modify n (set_previous (some l)) m in
      let s = Seg-set_next q.entries none h l f xs (some id) (some n) l_last d_as sa in
      let sb =
        Seg-modify l (set_next (some n)) q.entries (some id) ((n, g) ∷ ys) none l_bs rest.1 in
      let s' = Seg-modify n (set_previous (some l)) m none ((h, f) ∷ xs) (some n) n_as s in
      let sb' = Seg-set_previous m (some id) (some l) n g ys none n_bs sb in
      let found : lookup id m' ≡ some (node_of e (some l) (some n)) =
        lookup-modify_ne n id (set_previous (some l)) m (ne_head id n g ys no_bs)
        ∙ lookup-modify_ne l id (set_next (some n)) q.entries
            (ne_of_mem id l ((h, f) ∷ xs) no_as in_as)
        ∙ id_found in
      let h_ne = ne_head id h f xs no_as in
      (
        record { entries = front_entries id h m'; head = some id; tail = q.tail },
        promote_run_middle id h l n e q a _ _ _ rep.head_first h_ne id_found l_found sb.0 s'.0
            (lookup-modify_ne h id (set_previous (some id)) m' h_ne ∙ found),
        front_Represents q m' q.tail id h e f xs ((n, g) ∷ ys) (some l) (some n) rep
            (modify-IsMap n _ m (modify-IsMap l _ q.entries rep.is_map))
            (length-modify n _ m ∙ length-modify l _ q.entries)
            (λ k miss.
              lookup-modify-none n k (set_previous (some l)) m
                (lookup-modify-none l k (set_next (some n)) q.entries miss))
            s' (rw l_last sb') found
            (rep.tail_last ∙ last-append (some h) xs ((id, e) ∷ (n, g) ∷ ys)),
      )

  -- The promotion of a task behind the head moves it to the front, keeps the others in their
  -- order, reports `true`, and never panics.
  pub promote-Represents :
      (id h : ℕ) (e f : E) (xs ys : List (ℕ × E)) (q : Fifo E)
      → Represents q (((h, f) ∷ xs) ++ (id, e) ∷ ys)
      → (r : Fifo E) × (promote id q ≡ some (true, r)) × Represents r ((id, e) ∷ (h, f) ∷ xs ++ ys)
  promote-Represents id h e f xs [] q rep = promote_last q id h e f xs rep
  promote-Represents id h e f xs ((n, g) ∷ ys) q rep = promote_middle q id h n e f g xs ys rep

  -- The head and an id that is not queued are left alone.
  pub promote_head_unchanged :
      (id : ℕ) (e : E) (xs : List (ℕ × E)) (q : Fifo E)
      → Represents q ((id, e) ∷ xs)
      → promote id q ≡ some (false, q)
  promote_head_unchanged id e xs q rep = promote_run_head id q rep.head_first

  pub promote_missing_unchanged :
      (id : ℕ) (xs : List (ℕ × E)) (q : Fifo E)
      → mem id xs ≡ false
      → Represents q xs
      → promote id q ≡ some (false, q)
  promote_missing_unchanged id xs q miss rep = promote_run_missing id q (rep.covered id miss)
