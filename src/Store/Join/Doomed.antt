-- ===== src/Store/Join/Doomed.antt =====
-- The entries of src/runtime/store/hashmap.rs that take no value any more: their group has ended, or
-- they have expired while no call held their lock.
use rustservicelib.Base.{
  same_cell, true_ne, ℕ, ◌+◌, List, [], ◌∷◌, Option, none, some, true, false, ◌==◌, Eq, nat_eq,
  get_elem?, modify_at, map_option, get_elem?-modify_at, get_elem?-modify_at_ne, get_elem?-append,
  length, ◌≡◌, refl, sym, ◌∙◌, ap, inl, inr, ◌⊎◌, Bool-cases, arith,
}
use rustservicelib.Store.Join.{Entry, Storage, Seen, is_expired, accept, answer, fresh}
use rustservicelib.Store.Join.Steps.{finish, claim}
use rustservicelib.Store.Join.Changes.{
  Change, stays, started, found, made, missed, entered, finished, retried, left, woken, postponed,
  claimed, evicted, ticked,
}
use rustservicelib.Store.Join.Locks.{IsLocked}

later-is_expired :
    (now n : ℕ) (o : Option ℕ) → is_expired now o ≡ true → is_expired (now + n) o ≡ true
unfolding is_expired
later-is_expired now n none h = h
later-is_expired now n (some deadline) h = ground (arith, h)

module _ {κ} {A : Type κ} where
  -- At a time, an entry is closed for ever.
  abbrev pub IsOver : ℕ → Entry A → Type 0
  IsOver now e =
      (e.item.processed ≡ true) ⊎ ((is_expired now e.deadline ≡ true) × (e.holder ≡ none))

  abbrev pub Doomed : ℕ → ℕ → List (Entry A) → Type κ
  Doomed i now entries = (e : Entry A) × (get_elem? entries i ≡ some e) × IsOver now e

  -- A write keeps an entry closed if it does so at the cell that it writes.
  modify_at-Doomed :
      (i n now : ℕ) (f : Entry A → Entry A) (entries : List (Entry A))
      → ((e : Entry A) → get_elem? entries n ≡ some e → IsOver now e → IsOver now (f e))
      → Doomed i now entries
      → Doomed i now (modify_at n f entries)
  modify_at-Doomed i n now f entries keep (e, at, over) = elim (Bool-cases (n == i)) [
    | inl hit ↦
        let ni : n ≡ i = ground (arith, hit) in
        let there : get_elem? entries n ≡ some e = ap (get_elem? entries) ni ∙ at in
        (
          f e,
          ap (get_elem? (modify_at n f entries)) (sym ni)
              ∙ get_elem?-modify_at n f entries
              ∙ ap (map_option f) there,
          keep e there over,
        )
    | inr apart ↦ (e, get_elem?-modify_at_ne n i f entries apart ∙ at, over)
  ]

  -- An entry that takes a value is not closed.
  live_not_over :
      (now : ℕ) (e d : Entry A)
      → e ≡ d
      → d.item.processed ≡ false
      → is_expired now d.deadline ≡ false
      → IsOver now e
      → ⊥
  live_not_over now e d same fresh_one live (inl over) =
      true_ne (sym over ∙ ap (λ (x : Entry A). x.item.processed) same ∙ fresh_one)
  live_not_over now e d same fresh_one live (inr (late, free)) =
      true_ne (sym late ∙ ap (λ (x : Entry A). is_expired now x.deadline) same ∙ live)

  held_not_over :
      (now call : ℕ) (e d : Entry A)
      → e ≡ d
      → d.item.processed ≡ false
      → d.holder ≡ some call
      → IsOver now e
      → ⊥
  held_not_over now call e d same fresh_one held (inl over) =
      true_ne (sym over ∙ ap (λ (x : Entry A). x.item.processed) same ∙ fresh_one)
  held_not_over now call e d same fresh_one held (inr (late, free)) =
      no_holder (sym free ∙ ap (λ (x : Entry A). x.holder) same ∙ held)
    where
      no_holder : none ≡ some call → ⊥
      no_holder h = cc

module _ {ℓ κ} {K : Type ℓ} {A : Type κ} ⦃eq : Eq K⦄ where
  -- Every step keeps a closed entry closed.
  pub Change-Doomed :
      (i : ℕ) (s t : Storage K A) (seen : List (Seen K A))
      → Change s seen t
      → IsLocked s
      → Doomed i s.now s.entries
      → Doomed i t.now t.entries
  unfolding finish
  Change-Doomed i s t seen stays v d = d
  Change-Doomed i s t seen (started c st) v d = d
  Change-Doomed i s t seen (found call c j at live) v d = d
  Change-Doomed i s t seen (made call c at live) v (e, place, over) =
      (e, get_elem?-append i e s.entries (fresh s.now c ∷ []) place, over)
  Change-Doomed i s t seen (missed call c j e at free over) v d = d
  Change-Doomed i s t seen (entered call c j e timers at free fresh_one live armed) v d =
      modify_at-Doomed i j s.now (accept call (length s.timers) c) s.entries
        (λ x there over.
          absurd (live_not_over s.now x e (same_cell free.0 there) fresh_one live over))
        d
  Change-Doomed i s t seen (finished call c j b at) v d =
      let (e, place, held, fresh_one) = v call c j at.0 at.1 in
      modify_at-Doomed i j s.now (answer s.now c b) s.entries
        (λ x there over.
          absurd (held_not_over s.now call x e (same_cell place there) fresh_one held over))
        d
  Change-Doomed i s t seen (retried call c j at) v d = d
  Change-Doomed i s t seen (left call c j at) v d = d
  Change-Doomed i s t seen (woken n w st at h) v d = d
  Change-Doomed i s t seen (postponed n w deadline at) v d = d
  Change-Doomed i s t seen (claimed n w e at st free fresh_one) v d =
      modify_at-Doomed i w.item s.now claim s.entries (λ x there over. inl refl) d
  Change-Doomed i s t seen (evicted n w at st) v d = d
  Change-Doomed i s t seen (ticked n) v (e, place, inl over) = (e, place, inl over)
  Change-Doomed i s t seen (ticked n) v (e, place, inr (late, free)) =
      (e, place, inr (later-is_expired s.now n e.deadline late, free))
