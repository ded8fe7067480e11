-- ===== src/Examples/CallbackRuns.antt =====
-- A run of the callback store past its inline slot.
use Prim.Native.String.{String}
use rustservicelib.Base.{ℕ, List, [], ◌∷◌, none, some, ◌≡◌, refl, nat_eq, lookup, insert, remove}
use rustservicelib.Callbacks.{
  Operation, inserts, gets, removes, new, apply, apply_all, map_apply_all, insert_callback,
  get_callback, remove_callback, answers_as_map,
}

abbrev operations : List (Operation ℕ String)
operations = inserts 1 "a" ∷ inserts 1 "b" ∷ inserts 2 "c" ∷ removes 1 ∷ gets 1 ∷ gets 2 ∷ []

operations_run : apply_all operations new ≡ none ∷ some "a" ∷ none ∷ some "b" ∷ none ∷ some "c" ∷ []
unfolding apply_all apply insert_callback get_callback remove_callback new lookup insert remove
operations_run = refl

answers_as_map_example : apply_all operations new ≡ map_apply_all operations []
answers_as_map_example = answers_as_map operations
