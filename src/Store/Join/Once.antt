-- ===== src/Store/Join/Once.antt =====
-- A group of src/runtime/store/hashmap.rs ends once: by an answer of its callback or by its expiry.
use rustservicelib.Base.{
  ℕ, zero, suc, ◌+◌, List, [], ◌∷◌, ◌++◌, Option, none, some, Bool, true, false, ◌==◌, Eq, nat_eq,
  get_elem?, modify_at, map_option, get_elem?-modify_at, get_elem?-modify_at_ne, length,
  if◌then◌else◌, ◌≡◌, refl, sym, ◌∙◌, ap, inl, inr, Bool-cases, arith,
}
use rustservicelib.Store.Join.{
  Entry, Storage, Seen, answered, expired_group, accept, answer, fresh, new,
}
use rustservicelib.Store.Join.Steps.{Step, finish, claim, run}
use rustservicelib.Store.Join.Cells.{accept-processed}
use rustservicelib.Store.Join.Changes.{
  Change, stays, started, found, made, missed, entered, finished, retried, left, woken, postponed,
  claimed, evicted, ticked, Reaches, here, next, run-Reaches,
}
use rustservicelib.Store.Join.Locks.{IsLocked, Change-IsLocked, new-IsLocked}

abbrev pub one_if : Bool → ℕ
one_if true = 1
one_if false = 0

abbrev ends {ℓ κ} : {K : Type ℓ} {A : Type κ} → ℕ → Seen K A → ℕ
ends i (answered j processed) = if j == i then one_if processed else 0
ends i (expired_group j callback context k values) = one_if (j == i)

-- How often the callbacks ended the group of an entry.
abbrev pub completions {ℓ κ} : {K : Type ℓ} {A : Type κ} → ℕ → List (Seen K A) → ℕ
completions i [] = 0
completions i (x ∷ seen) = ends i x + completions i seen

completions-append {ℓ κ} :
    {K : Type ℓ} {A : Type κ} (i : ℕ) (xs ys : List (Seen K A))
    → completions i (xs ++ ys) ≡ completions i xs + completions i ys
completions-append i [] ys = omega arith
completions-append i (x ∷ xs) ys = omega (arith, completions-append i xs ys)

module _ {κ} {A : Type κ} where
  abbrev over_of : Option (Entry A) → ℕ
  over_of none = 0
  over_of (some e) = one_if e.item.processed

  -- 1 where an entry is there whose group has ended.
  abbrev pub over_at : ℕ → List (Entry A) → ℕ
  over_at i entries = over_of (get_elem? entries i)

  over_at-append :
      (i : ℕ) (e : Entry A) (entries : List (Entry A))
      → e.item.processed ≡ false
      → over_at i (entries ++ e ∷ []) ≡ over_at i entries
  over_at-append zero e [] h = rw h refl
  over_at-append (suc i) e [] h = refl
  over_at-append zero e (x ∷ xs) h = refl
  over_at-append (suc i) e (x ∷ xs) h = over_at-append i e xs h

  over_at-modify_at :
      (i j n : ℕ) (f : Entry A → Entry A) (e : Entry A) (entries : List (Entry A))
      → get_elem? entries i ≡ some e
      → n + one_if e.item.processed ≡ one_if (f e).item.processed
      → (if i == j then n else 0) + over_at j entries ≡ over_at j (modify_at i f entries)
  over_at-modify_at i j n f e entries at h = elim (Bool-cases (i == j)) [
    | inl same ↦
        let ij : i ≡ j = ground (arith, same) in
        let was : over_at i entries ≡ one_if e.item.processed = ap over_of at in
        let is : over_at i (modify_at i f entries) ≡ one_if (f e).item.processed =
          ap over_of (get_elem?-modify_at i f entries ∙ ap (map_option f) at) in
        rw same (
          ap (λ k. n + over_at k entries) (sym ij)
          ∙ omega (arith, was, is, h)
          ∙ ap (λ k. over_at k (modify_at i f entries)) ij)
    | inr apart ↦ rw apart (omega (arith, ap over_of (get_elem?-modify_at_ne i j f entries apart)))
  ]

module _ {ℓ κ} {K : Type ℓ} {A : Type κ} ⦃eq : Eq K⦄ where
  pub Change-counts :
      (i : ℕ) (s t : Storage K A) (seen : List (Seen K A))
      → Change s seen t
      → IsLocked s
      → completions i seen + over_at i s.entries ≡ over_at i t.entries
  unfolding fresh finish answer
  Change-counts i s t seen stays v = omega arith
  Change-counts i s t seen (started c st) v = omega arith
  Change-counts i s t seen (found call c j at live) v = omega arith
  Change-counts i s t seen (made call c at live) v =
      omega (arith, over_at-append i (fresh s.now c) s.entries refl)
  Change-counts i s t seen (missed call c j e at free over) v = omega arith
  Change-counts i s t seen (entered call c j e timers at free fresh_one live armed) v = ground (
    arith,
    over_at-modify_at j i 0 (accept call (length s.timers) c) e s.entries free.0
        (omega (arith, ap one_if (accept-processed call (length s.timers) c e))),
  )
  Change-counts i s t seen (finished call c j b at) v =
      let (e, place, held, fresh_one) = v call c j at.0 at.1 in
      omega (
        arith,
        over_at-modify_at j i (one_if b) (answer s.now c b) e s.entries place
            (omega (arith, ap one_if fresh_one)),
      )
  Change-counts i s t seen (retried call c j at) v = omega arith
  Change-counts i s t seen (left call c j at) v = omega arith
  Change-counts i s t seen (woken n w st at h) v = omega arith
  Change-counts i s t seen (postponed n w deadline at) v = omega arith
  Change-counts i s t seen (claimed n w e at st free fresh_one) v = ground (
    arith,
    over_at-modify_at w.item i 1 claim e s.entries free.0 (omega (arith, ap one_if fresh_one)),
  )
  Change-counts i s t seen (evicted n w at st) v = omega arith
  Change-counts i s t seen (ticked n) v = omega arith

  Reaches-counts :
      (i : ℕ) {s t : Storage K A} {seen : List (Seen K A)}
      → Reaches s seen t
      → IsLocked s
      → completions i seen + over_at i s.entries ≡ over_at i t.entries
  Reaches-counts i (here s) v = omega arith
  Reaches-counts i (next {s = s} {t = u} {a = a} {b = b} d r) v = omega (
    arith,
    completions-append i a b,
    Change-counts i s u a d v,
    Reaches-counts i r (Change-IsLocked s u a d v),
  )

  -- From an empty storage, in any order of the steps: the callbacks end the group of an entry once
  -- where the entry is processed, by an answer or by the expiry, and never where it is not.
  pub completed_once :
      (xs : List (Step K A)) (t : Storage K A) (seen : List (Seen K A)) (i : ℕ) (e : Entry A)
      → run xs new ≡ some (seen, t)
      → get_elem? t.entries i ≡ some e
      → completions i seen ≡ one_if e.item.processed
  completed_once xs t seen i e h at =
      omega
        (arith, Reaches-counts i (run-Reaches xs new t seen h) new-IsLocked, ap over_of at, empty)
    where
      empty : over_at i (new {K = K} {A = A}).entries ≡ 0
      empty = unfold new in refl
