-- ===== src/Examples/QueueRuns.antt =====
-- Runs of the two queues of a pool.
use Prim.Native.String.{String}
use rustservicelib.Base.{
  ℕ, ◌<◌, List, [], ◌∷◌, none, some, true, false, ◌==◌, nat_eq, ◌≡◌, refl, ◌⊎◌, lookup, insert,
  remove, modify, if◌then◌else◌, arith, subst, sym,
}
use rustservicelib.Base.Int.{pos, negsuc}
use rustservicelib.Pool.Fifo
use rustservicelib.Pool.Fifo.{Fifo}
use rustservicelib.Pool.Fifo.Refine.{Represents, push-Represents, new-Represents}
use rustservicelib.Pool.Fifo.Reference.{
  Call, Answer, pushes, pops, promotes, pushed, popped, promoted, run, list_run, run-new,
  list_promote, AllFresh, list_step, step, take_out,
}
use rustservicelib.Pool.Priority
use rustservicelib.Pool.Priority.{Key, Priority, ordered_insert, key_lt, i32_min}
use rustservicelib.Pool.Priority.Invariant.{Inv, task, new-Inv, push-Inv}
use rustservicelib.Pool.Priority.Tasks.{Popped, pop_least, promote_first}
use rustservicelib.Pool.Pending
use rustservicelib.Pool.Pending.{PendingQueue, Ok, priority, new-Ok, push-Ok, pop-Ok, promote-Ok}

abbrev calls : List (Call String)
calls =
    pushes 0 "a"
    ∷ pushes 1 "b"
    ∷ pushes 2 "c"
    ∷ promotes 1
    ∷ pops
    ∷ pops
    ∷ promotes 2
    ∷ pops
    ∷ pops
    ∷ []

abbrev answers : List (Answer String)
answers =
    pushed
    ∷ pushed
    ∷ pushed
    ∷ promoted true
    ∷ popped (some (1, "b"))
    ∷ popped (some (0, "a"))
    ∷ promoted false
    ∷ popped (some (2, "c"))
    ∷ popped none
    ∷ []

calls_answer : list_run calls [] ≡ answers
unfolding list_run list_step list_promote take_out
calls_answer = refl

calls_linked : run calls Fifo.new ≡ some answers
unfolding run step Fifo.new Fifo.push Fifo.pop Fifo.promote lookup insert remove modify
calls_linked = refl

calls_fresh : AllFresh calls []
unfolding list_step list_promote take_out
calls_fresh = (refl, (refl, (refl, (tt, (tt, (tt, (tt, (tt, (tt, tt)))))))))

run-new_example : run calls Fifo.new ≡ some (list_run calls [])
run-new_example = run-new calls calls_fresh

-- A linked queue of one task.
abbrev one_task : Fifo String
one_task = record {
  entries = (0, record { entry = "a"; previous = none; next = none }) ∷ [];
  head = some 0;
  tail = some 0;
}

abbrev one_listed : List (ℕ × String)
one_listed = (0, "a") ∷ []

one_task-Represents : Represents one_task ((0, "a") ∷ [])
unfolding Fifo.push Fifo.new insert
one_task-Represents =
    let (r, ran, rep) = push-Represents 0 "a" Fifo.new [] refl new-Represents in
    subst (λ q. Represents q ((0, "a") ∷ [])) (some_injective (sym ran)) rep
  where
    some_injective : {r : Fifo String} → some r ≡ some one_task → r ≡ one_task
    some_injective h = cc

-- A queue of two tasks, of which the second has the smaller key.
abbrev two_tasks : Priority String
two_tasks = Priority.push 1 (negsuc 4) "b" (Priority.push 0 (pos 3) "a" Priority.new)

two_tasks-Inv : Inv two_tasks
unfolding Priority.push Priority.new lookup insert
two_tasks-Inv =
    push-Inv 1 (negsuc 4) "b" (Priority.push 0 (pos 3) "a" Priority.new) refl
      (push-Inv 0 (pos 3) "a" Priority.new refl new-Inv)

pop_least_example :
    ((Priority.pop two_tasks).0 ≡ none) × ((j : ℕ) → task j two_tasks ≡ none)
    ⊎ ((k : Key) × (e : String) × ((Priority.pop two_tasks).0 ≡ some (k.id, e))
        × Popped two_tasks (Priority.pop two_tasks).1 k e)
pop_least_example = pop_least two_tasks two_tasks-Inv

abbrev first_key : Key
first_key = record { priority = pos 3; id = 0 }

first_at : lookup 0 two_tasks.positions ≡ some first_key
unfolding Priority.push Priority.new lookup insert
first_at = refl

promote_first_example :
    let key : Key = record { priority = i32_min; id = 0 } in
    (r : Priority String) × (e : String) × (Priority.promote 0 two_tasks ≡ some (true, r))
    × Inv r
    × (task 0 two_tasks ≡ some (first_key, e))
    × ((j : ℕ) → task j r ≡ (if 0 == j then some (key, e) else task j two_tasks))
promote_first_example = promote_first 0 first_key two_tasks two_tasks-Inv first_at

-- Both kinds of queues, behind their interface.
abbrev empty_queue : PendingQueue String
empty_queue = Pending.new false

abbrev one_pending : PendingQueue String
one_pending = priority (Priority.push 0 (pos 7) "a" Priority.new)

one_pending-Ok : Ok 1 one_pending
unfolding Pending.push Pending.new
one_pending-Ok =
    let (r, ran, ok, _) = push-Ok 0 (pos 7) "a" (Pending.new true) (new-Ok String true).0 in
    subst (λ q. Ok 1 q) (some_injective (sym ran)) ok
  where
    some_injective : {r : PendingQueue String} → some r ≡ some one_pending → r ≡ one_pending
    some_injective h = cc

one_pending-len : 0 < Pending.len one_pending
unfolding Pending.len Priority.len Priority.push Priority.new ordered_insert
one_pending-len = omega arith
