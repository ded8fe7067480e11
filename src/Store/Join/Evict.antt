-- ===== src/Store/Join/Evict.antt =====
-- The map of src/runtime/store/hashmap.rs loses an entry only when its group has ended or has expired.
use rustservicelib.Base.{
  ℕ, List, [], ◌∷◌, ◌++◌, none, some, true, ◌==◌, Eq, nat_eq, get_elem?, modify_at, map_option,
  get_elem?-modify_at, get_elem?-modify_at_ne, get_elem?-append, get_elem?-append_length, length,
  lookup, insert, lookup-insert, lookup-remove, ◌≡◌, refl, sym, ◌∙◌, ap, inl, inr, ◌⊎◌, Bool-cases,
  arith,
}
use rustservicelib.Store.Join.{
  Entry, Call, Storage, Seen, is_expired, accept, answer, fresh, live_entry, remove_if_same, new,
}
use rustservicelib.Store.Join.Steps.{Step, finish, claim, step, run}
use rustservicelib.Store.Join.Changes.{
  Change, stays, started, found, made, missed, entered, finished, retried, left, woken, postponed,
  claimed, evicted, ticked, Reaches-keeps, step-Change, run-Reaches,
}
use rustservicelib.Store.Join.Doomed.{Doomed}
use rustservicelib.Store.Join.Retired.{IsTidy, Change-IsTidy, new-IsTidy, remove_if_same-cases}

module _ {κ} {A : Type κ} where
  abbrev Present : ℕ → List (Entry A) → Type κ
  Present i entries = (e : Entry A) × (get_elem? entries i ≡ some e)

  modify_at-Present :
      (i n : ℕ) (f : Entry A → Entry A) (entries : List (Entry A))
      → Present i entries
      → Present i (modify_at n f entries)
  modify_at-Present i n f entries (e, at) = elim (Bool-cases (n == i)) [
    | inl hit ↦
        let ni : n ≡ i = ground (arith, hit) in
        (
          f e,
          ap (get_elem? (modify_at n f entries)) (sym ni)
              ∙ get_elem?-modify_at n f entries
              ∙ ap (map_option f) (ap (get_elem? entries) ni ∙ at),
        )
    | inr apart ↦ (e, get_elem?-modify_at_ne n i f entries apart ∙ at)
  ]

module _ {ℓ} {K : Type ℓ} ⦃eq : Eq K⦄ where
  remove_if_same-keeps :
      (k j : K) (i n : ℕ) (items : List (K × ℕ))
      → lookup j (remove_if_same k i items) ≡ some n
      → lookup j items ≡ some n
  unfolding remove_if_same
  remove_if_same-keeps k j i n items h = ground (arith, lookup-remove k j items, eq.beq_iff k j)

  insert-cases :
      (k j : K) (i n : ℕ) (items : List (K × ℕ))
      → lookup j (insert k i items) ≡ some n
      → ((k == j) ≡ true) × (n ≡ i) ⊎ (lookup j items ≡ some n)
  insert-cases k j i n items h = ground (arith, lookup-insert k j i items)

module _ {ℓ κ} {K : Type ℓ} {A : Type κ} ⦃eq : Eq K⦄ where
  -- The map has entries that are there.
  abbrev IsPlaced : Storage K A → Type (ℓ ⊔ κ)
  IsPlaced s = (k : K) (i : ℕ) → lookup k s.items ≡ some i → Present i s.entries

  Change-IsPlaced :
      (s t : Storage K A) (seen : List (Seen K A)) → Change s seen t → IsPlaced s → IsPlaced t
  unfolding finish
  Change-IsPlaced s t seen stays p = p
  Change-IsPlaced s t seen (started c st) p = p
  Change-IsPlaced s t seen (found call c i at live) p = p
  Change-IsPlaced s t seen (made call c at live) p = λ k i h.
      elim (insert-cases c.key k (length s.entries) i s.items h) [
        | inl (hit, last) ↦ (
          fresh s.now c,
          ap (get_elem? (s.entries ++ fresh s.now c ∷ [])) last
              ∙ get_elem?-append_length (fresh s.now c) s.entries,
        )
        | inr old ↦
            let (e, at) = p k i old in (e, get_elem?-append i e s.entries (fresh s.now c ∷ []) at)
      ]
  Change-IsPlaced s t seen (missed call c i e at free over) p = p
  Change-IsPlaced s t seen (entered call c i e timers at free fresh_one live armed) p =
      λ k n h. modify_at-Present n i (accept call (length s.timers) c) s.entries (p k n h)
  Change-IsPlaced s t seen (finished call c i b at) p =
      λ k n h. modify_at-Present n i (answer s.now c b) s.entries (p k n h)
  Change-IsPlaced s t seen (retried call c i at) p =
      λ k n h. p k n (remove_if_same-keeps c.key k i n s.items h)
  Change-IsPlaced s t seen (left call c i at) p =
      λ k n h. p k n (remove_if_same-keeps c.key k i n s.items h)
  Change-IsPlaced s t seen (woken m w st at h) p = p
  Change-IsPlaced s t seen (postponed m w deadline at) p = p
  Change-IsPlaced s t seen (claimed m w e at st free fresh_one) p =
      λ k n h. modify_at-Present n w.item claim s.entries (p k n h)
  Change-IsPlaced s t seen (evicted m w at st) p =
      λ k n h. p k n (remove_if_same-keeps w.key k w.item n s.items h)
  Change-IsPlaced s t seen (ticked n) p = p

  -- The map keeps an entry, or its group has ended, or it has expired.
  abbrev Kept : K → ℕ → Storage K A → Storage K A → Type κ
  Kept k i s t =
      (lookup k t.items ≡ some i)
      ⊎ ((e : Entry A) × (get_elem? s.entries i ≡ some e)
          × ((e.item.processed ≡ true) ⊎ (is_expired s.now e.deadline ≡ true)))

  Doomed-Kept :
      (k : K) (i n : ℕ) (s t : Storage K A)
      → (lookup k t.items ≡ some i) ⊎ (i ≡ n)
      → Doomed n s.now s.entries
      → Kept k i s t
  Doomed-Kept k i n s t (inl kept) d = inl kept
  Doomed-Kept k i n s t (inr hit) (e, at, inl over) =
      inr (e, ap (get_elem? s.entries) hit ∙ at, inl over)
  Doomed-Kept k i n s t (inr hit) (e, at, inr (late, free)) =
      inr (e, ap (get_elem? s.entries) hit ∙ at, inr late)

  live_entry-none :
      (k : K) (i : ℕ) (e : Entry A) (s : Storage K A)
      → lookup k s.items ≡ some i
      → get_elem? s.entries i ≡ some e
      → live_entry k s ≡ none
      → is_expired s.now e.deadline ≡ true
  unfolding live_entry
  live_entry-none k i e s there at h = elim (Bool-cases (is_expired s.now e.deadline)) [
    | inl late ↦ late
    | inr early ↦ absurd (no_entry (sym (rw (there, at, early) refl) ∙ h))
  ]
    where
      no_entry : some i ≡ none → ⊥
      no_entry h = cc

  made-Kept :
      (call : ℕ) (c : Call K A) (k : K) (i : ℕ) (s t : Storage K A)
      → t.items ≡ insert c.key (length s.entries) s.items
      → live_entry c.key s ≡ none
      → IsPlaced s
      → lookup k s.items ≡ some i
      → Kept k i s t
  made-Kept call c k i s t same gone p h = elim (Bool-cases (c.key == k)) [
    | inl hit ↦
        let ck : c.key ≡ k = (eq.beq_iff c.key k).0 hit in
        let (e, at) = p k i h in
        inr (e, at, inr (live_entry-none c.key i e s (ap (λ j. lookup j s.items) ck ∙ h) at gone))
    | inr apart ↦
        inl (
          ap (lookup k) same ∙ lookup-insert c.key k (length s.entries) s.items ∙ rw apart refl ∙ h)
  ]

  Change-Kept :
      (k : K) (i : ℕ) (s t : Storage K A) (seen : List (Seen K A))
      → Change s seen t
      → IsTidy s
      → IsPlaced s
      → lookup k s.items ≡ some i
      → Kept k i s t
  unfolding finish
  Change-Kept k i s t seen stays v p h = inl h
  Change-Kept k i s t seen (started c st) v p h = inl h
  Change-Kept k i s t seen (found call c j at live) v p h = inl h
  Change-Kept k i s t seen (made call c at live) v p h = made-Kept call c k i s t refl live p h
  Change-Kept k i s t seen (missed call c j e at free over) v p h = inl h
  Change-Kept k i s t seen (entered call c j e timers at free fresh_one live armed) v p h = inl h
  Change-Kept k i s t seen (finished call c j b at) v p h = inl h
  Change-Kept k i s t seen (retried call c j at) (_, calls, _) p h =
      Doomed-Kept k i j s t (remove_if_same-cases c.key k j i s.items h)
        (calls call c j at.0 (rw at.1 refl))
  Change-Kept k i s t seen (left call c j at) (_, calls, _) p h =
      Doomed-Kept k i j s t (remove_if_same-cases c.key k j i s.items h)
        (calls call c j at.0 (rw at.1 refl))
  Change-Kept k i s t seen (woken m w st at e) v p h = inl h
  Change-Kept k i s t seen (postponed m w deadline at) v p h = inl h
  Change-Kept k i s t seen (claimed m w e at st free fresh_one) v p h = inl h
  Change-Kept k i s t seen (evicted m w at st) (_, _, timers) p h =
      Doomed-Kept k i w.item s t (remove_if_same-cases w.key k w.item i s.items h)
        (timers m w w.item at (rw st refl))
  Change-Kept k i s t seen (ticked n) v p h = inl h

  -- A storage that is reached from an empty one, in any order of the steps, and one more step: an entry
  -- that the map had for a key is still there, or its group had ended, or it had expired. So no late
  -- answer, retry or expiry of an older group removes the group that replaced it.
  pub eviction_safe :
      (xs : List (Step K A)) (x : Step K A) (s t : Storage K A) (seen more : List (Seen K A))
      → (k : K) (i : ℕ) → run xs new ≡ some (seen, s)
      → step x s ≡ some (more, t)
      → lookup k s.items ≡ some i
      → (lookup k t.items ≡ some i)
        ⊎ ((e : Entry A) × (get_elem? s.entries i ≡ some e)
            × ((e.item.processed ≡ true) ⊎ (is_expired s.now e.deadline ≡ true)))
  eviction_safe xs x s t seen more k i first last h =
      let reach = run-Reaches xs new s seen first in
      Change-Kept k i s t more (step-Change x s t more last)
        (Reaches-keeps IsTidy Change-IsTidy reach new-IsTidy)
        (Reaches-keeps IsPlaced Change-IsPlaced reach new-IsPlaced) h
    where
      new-IsPlaced : IsPlaced (new {K = K} {A = A})
      new-IsPlaced k i h = none_there k i (unfold new in h)
        where
          none_there :
              (k : K) (i : ℕ) → lookup k [] ≡ some i → Present i (new {K = K} {A = A}).entries
          none_there k i h = absurd (unfold lookup in cc)
