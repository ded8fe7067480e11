-- ===== src/Pool/Fifo.antt =====
-- src/runtime/pool/queuedpool.rs, the `Fifo` variant of `PendingQueue`: a doubly linked list whose
-- nodes stand in a hash map under their task ids. An operation's `none` is a panic of an `unwrap`.
pub mod Links
mod Runs
pub mod Promote
pub mod Reference
pub mod Refine
pub mod Tally
use rustservicelib.Base.{
  ℕ, List, [], ◌∷◌, Option, none, some, Bool, true, false, ◌==◌, nat_eq, if◌then◌else◌, lookup,
  insert, remove, modify, length, ◌>>=◌, arith, ◌≡◌,
}

pub record FifoEntry {ℓ} (E : Type ℓ) : Type ℓ where
  pub entry : E
  pub previous : Option ℕ
  pub next : Option ℕ

pub record Fifo {ℓ} (E : Type ℓ) : Type ℓ where
  pub entries : List (ℕ × FifoEntry E)
  pub head : Option ℕ
  pub tail : Option ℕ

-- `*head == Some(id)`.
abbrev is_id : ℕ → Option ℕ → Bool
is_id id none = false
is_id id (some h) = h == id

module _ {ℓ} {E : Type ℓ} where
  abbrev pub set_next : Option ℕ → FifoEntry E → FifoEntry E
  set_next n node = record node { next = n }

  abbrev pub set_previous : Option ℕ → FifoEntry E → FifoEntry E
  set_previous p node = record node { previous = p }

  -- `entries.get_mut(&id).unwrap()` and a write through it.
  abbrev pub write :
      ℕ → (FifoEntry E → FifoEntry E) → List (ℕ × FifoEntry E) → Option (List (ℕ × FifoEntry E))
  write id f m = elim (lookup id m) [ none ↦ none | some node ↦ some (modify id f m) ]

  unfoldable pub new : Fifo E
  new = record { entries = []; head = none; tail = none }

  unfoldable pub len : Fifo E → ℕ
  len q = length q.entries

  abbrev link_last : Option ℕ → ℕ → Fifo E → Option (Fifo E)
  link_last (some previous) id q =
      write previous (set_next (some id)) q.entries >>= λ m. some (record q { entries = m })
  link_last none id q = some (record q { head = some id })

  unfoldable pub push : ℕ → E → Fifo E → Option (Fifo E)
  push id entry q = link_last q.tail id q >>= λ r. some (record r {
    entries = insert id (record { entry = entry; previous = q.tail; next = none }) r.entries;
    tail = some id;
  })

  abbrev unlink_head : Option ℕ → Fifo E → Option (Fifo E)
  unlink_head (some next) q =
      write next (set_previous none) q.entries >>= λ m. some (record q { entries = m })
  unlink_head none q = some (record q { tail = none })

  abbrev pop_head : Option ℕ → Fifo E → Option (Option (ℕ × E) × Fifo E)
  pop_head none q = some (none, q)
  pop_head (some id) q = lookup id q.entries >>= λ node.
      (unlink_head node.next (record q { entries = remove id q.entries; head = node.next }) >>= λ r.
      some (some (id, node.entry), r))

  unfoldable pub pop : Fifo E → Option (Option (ℕ × E) × Fifo E)
  pop q = pop_head q.head q

  abbrev relink : Option ℕ → Option ℕ → Fifo E → Option (Fifo E)
  relink (some next) previous q =
      write next (set_previous previous) q.entries >>= λ m. some (record q { entries = m })
  relink none previous q = some (record q { tail = previous })

  -- The node leaves its place and goes in front of the old head.
  abbrev to_front : ℕ → Fifo E → Option (Fifo E)
  to_front id q = q.head >>= λ h.
      (write h (set_previous (some id)) q.entries >>= λ m.
      (write id (λ node. record node { previous = none; next = q.head }) m >>= λ m'.
      some (record q { entries = m'; head = some id })))

  abbrev promote_found : ℕ → Option (FifoEntry E) → Fifo E → Option (Bool × Fifo E)
  promote_found id none q = some (false, q)
  promote_found id (some node) q = node.previous >>= λ p.
      (write p (set_next node.next) q.entries >>= λ m.
      (relink node.next node.previous (record q { entries = m }) >>= λ r.
      (to_front id r >>= λ r'. some (true, r'))))

  unfoldable pub promote : ℕ → Fifo E → Option (Bool × Fifo E)
  promote id q =
      if is_id id q.head then some (false, q) else promote_found id (lookup id q.entries) q
