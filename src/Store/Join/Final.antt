-- ===== src/Store/Join/Final.antt =====
-- A group of src/runtime/store/hashmap.rs that has ended stays as it is.
use rustservicelib.Base.{
  same_cell, true_ne, ℕ, List, [], ◌∷◌, some, true, false, ◌==◌, Eq, nat_eq, get_elem?, modify_at,
  get_elem?-modify_at_ne, get_elem?-append, length, ◌≡◌, refl, sym, ◌∙◌, ap, inl, inr, Bool-cases,
  arith,
}
use rustservicelib.Store.Join.{Entry, Storage, Seen, accept, answer, fresh, new}
use rustservicelib.Store.Join.Steps.{Step, finish, claim, run}
use rustservicelib.Store.Join.Changes.{
  Change, stays, started, found, made, missed, entered, finished, retried, left, woken, postponed,
  claimed, evicted, ticked, Reaches, here, next, run-Reaches,
}
use rustservicelib.Store.Join.Locks.{IsLocked, Change-IsLocked, run-IsLocked}

module _ {ℓ κ} {K : Type ℓ} {A : Type κ} ⦃eq : Eq K⦄ where
  -- An entry whose group has ended, with the same values.
  abbrev Final : ℕ → List (List A) → Storage K A → Type κ
  Final i values s =
      (e : Entry A) × (get_elem? s.entries i ≡ some e)
      × (e.item.processed ≡ true)
      × (e.item.values ≡ values)

  modify_at-Final :
      (i n : ℕ) (f : Entry A → Entry A) (values : List (List A)) (s t : Storage K A)
      → t.entries ≡ modify_at n f s.entries
      → ((e : Entry A) → get_elem? s.entries n ≡ some e → e.item.processed ≡ false)
      → Final i values s
      → Final i values t
  modify_at-Final i n f values s t same fresh_one (e, at, over, held) = elim (Bool-cases (n == i)) [
    | inl hit ↦
        let ni : n ≡ i = ground (arith, hit) in
        let alive = fresh_one e (ap (get_elem? s.entries) ni ∙ at) in
        absurd (true_ne (sym over ∙ alive))
    | inr apart ↦ (
      e,
      ap (λ (l : List (Entry A)). get_elem? l i) same
          ∙ get_elem?-modify_at_ne n i f s.entries apart
          ∙ at,
      over,
      held,
    )
  ]

  Change-Final :
      (i : ℕ) (values : List (List A)) (s t : Storage K A) (seen : List (Seen K A))
      → Change s seen t
      → IsLocked s
      → Final i values s
      → Final i values t
  unfolding finish
  Change-Final i values s t seen stays v f = f
  Change-Final i values s t seen (started c st) v f = f
  Change-Final i values s t seen (found call c j at live) v f = f
  Change-Final i values s t seen (made call c at live) v (e, place, over, held) =
      (e, get_elem?-append i e s.entries (fresh s.now c ∷ []) place, over, held)
  Change-Final i values s t seen (missed call c j e at free over) v f = f
  Change-Final i values s t seen (entered call c j e timers at free fresh_one live armed) v f =
      modify_at-Final i j (accept call (length s.timers) c) values s t refl
        (λ d there. ap (λ (x : Entry A). x.item.processed) (same_cell free.0 there) ∙ fresh_one) f
  Change-Final i values s t seen (finished call c j b at) v f =
      let (e, place, held, fresh_one) = v call c j at.0 at.1 in
      modify_at-Final i j (answer s.now c b) values s t refl
        (λ d there. ap (λ (x : Entry A). x.item.processed) (same_cell place there) ∙ fresh_one) f
  Change-Final i values s t seen (retried call c j at) v f = f
  Change-Final i values s t seen (left call c j at) v f = f
  Change-Final i values s t seen (woken n w st at h) v f = f
  Change-Final i values s t seen (postponed n w deadline at) v f = f
  Change-Final i values s t seen (claimed n w e at st free fresh_one) v f =
      modify_at-Final i w.item claim values s t refl
        (λ d there. ap (λ (x : Entry A). x.item.processed) (same_cell free.0 there) ∙ fresh_one) f
  Change-Final i values s t seen (evicted n w at st) v f = f
  Change-Final i values s t seen (ticked n) v f = f

  Reaches-Final :
      (i : ℕ) (values : List (List A)) {s t : Storage K A} {seen : List (Seen K A)}
      → Reaches s seen t
      → IsLocked s
      → Final i values s
      → Final i values t
  Reaches-Final i values (here s) v f = f
  Reaches-Final i values (next {s = s} {t = u} {a = a} d r) v f =
      Reaches-Final i values r (Change-IsLocked s u a d v) (Change-Final i values s u a d v f)

  -- A storage that is reached from an empty one: once a group there has ended, no further steps of
  -- calls and expiry tasks add a value to it or open it again.
  pub ended_final :
      (xs ys : List (Step K A)) (s t : Storage K A) (seen seen' : List (Seen K A)) (i : ℕ)
      → (e : Entry A) → run xs new ≡ some (seen, s)
      → run ys s ≡ some (seen', t)
      → get_elem? s.entries i ≡ some e
      → e.item.processed ≡ true
      → (d : Entry A) × (get_elem? t.entries i ≡ some d)
        × (d.item.processed ≡ true)
        × (d.item.values ≡ e.item.values)
  ended_final xs ys s t seen seen' i e first more at over =
      Reaches-Final i e.item.values (run-Reaches ys s t seen' more) (run-IsLocked xs s seen first)
        (e, at, over, refl)
