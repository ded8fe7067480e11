-- ===== src/Pool/Fifo/Runs.antt =====
-- The operations of a FIFO queue where the nodes that they follow are found.
use rustservicelib.Base.{
  ℕ, List, Option, none, some, true, false, ◌==◌, nat_eq, lookup, insert, remove, modify, arith,
  ◌≡◌,
}
use rustservicelib.Pool.Fifo.{FifoEntry, Fifo, set_next, set_previous, push, pop, promote}

module _ {ℓ} {E : Type ℓ} where
  abbrev pub node_of : E → Option ℕ → Option ℕ → FifoEntry E
  node_of e p n = record { entry = e; previous = p; next = n }

  pub push_run :
      (id l : ℕ) (e : E) (q : Fifo E) (node : FifoEntry E)
      → q.tail ≡ some l
      → lookup l q.entries ≡ some node
      → push id e q
        ≡ some (record {
          entries = insert id (node_of e (some l) none) (modify l (set_next (some id)) q.entries);
          head = q.head;
          tail = some id;
        })
  unfolding push
  push_run id l e q node t h = ground arith

  pub pop_run :
      (i j : ℕ) (e : E) (q : Fifo E) (node : FifoEntry E)
      → q.head ≡ some i
      → lookup i q.entries ≡ some (node_of e none (some j))
      → lookup j (remove i q.entries) ≡ some node
      → pop q
        ≡ some (
          some (i, e),
          record {
            entries = modify j (set_previous none) (remove i q.entries);
            head = some j;
            tail = q.tail;
          },
        )
  unfolding pop
  pop_run i j e q node hd hi hj = ground arith

  -- The three writes of a promotion behind the one that takes the node out of its place.
  abbrev pub front_entries : ℕ → ℕ → List (ℕ × FifoEntry E) → List (ℕ × FifoEntry E)
  front_entries id h m =
      modify id (λ node. record node { previous = none; next = some h })
        (modify h (set_previous (some id)) m)

  pub promote_run_last :
      (id h p : ℕ) (e : E) (q : Fifo E) (a b c : FifoEntry E)
      → q.head ≡ some h
      → (h == id) ≡ false
      → lookup id q.entries ≡ some (node_of e (some p) none)
      → lookup p q.entries ≡ some a
      → lookup h (modify p (set_next none) q.entries) ≡ some b
      → lookup id (modify h (set_previous (some id)) (modify p (set_next none) q.entries)) ≡ some c
      → promote id q
        ≡ some (
          true,
          record {
            entries = front_entries id h (modify p (set_next none) q.entries);
            head = some id;
            tail = some p;
          },
        )
  unfolding promote
  promote_run_last id h p e q a b c hd ne hi hp hh hi' = ground arith

  pub promote_run_middle :
      (id h p n : ℕ) (e : E) (q : Fifo E) (a b c d : FifoEntry E)
      → q.head ≡ some h
      → (h == id) ≡ false
      → lookup id q.entries ≡ some (node_of e (some p) (some n))
      → lookup p q.entries ≡ some a
      → lookup n (modify p (set_next (some n)) q.entries) ≡ some d
      → lookup h (modify n (set_previous (some p)) (modify p (set_next (some n)) q.entries))
        ≡ some b
      → lookup id (
          modify h
            (set_previous (some id))
            (modify n (set_previous (some p)) (modify p (set_next (some n)) q.entries)))
        ≡ some c
      → promote id q
        ≡ some (
          true,
          record {
            entries =
                front_entries id h
                  (modify n (set_previous (some p)) (modify p (set_next (some n)) q.entries));
            head = some id;
            tail = q.tail;
          },
        )
  unfolding promote
  promote_run_middle id h p n e q a b c d hd ne hi hp hn hh hi' = ground arith

  pub promote_run_head : (id : ℕ) (q : Fifo E) → q.head ≡ some id → promote id q ≡ some (false, q)
  unfolding promote
  promote_run_head id q h = ground arith

  pub promote_run_missing :
      (id : ℕ) (q : Fifo E) → lookup id q.entries ≡ none → promote id q ≡ some (false, q)
  unfolding promote
  promote_run_missing id q h = ground arith
