-- ===== src/Container/GlobalVector/Tests.antt =====
-- include/ityr/container/global_vector.hpp: runs on small vectors.
use itoyori.Prelude.{ℕ, ◌≡◌, refl, List, [], ◌∷◌, true, false, none, some, arith}
use itoyori.Pattern.SerialLoop.{
  assert_sequenced, assert_parallel, to_sequenced_policy, for_each_aux, for_each_chunked,
  apply_iterators,
}
use itoyori.Pattern.ParallelLoop.{
  written, for_each_leaf, join_halves, parallel_loop_generic, loop_generic,
}
use itoyori.Container.GlobalVector.{
  Options, policy_of, copies, construct_cells, destruct_cells, move_cells, free_mem, cells_of,
  write_back, empty_vector, construct_elems_from_iter, destruct_elems, next_size, relocate,
  free_if_any, realloc_mem, grow_if, push_back,
}
use itoyori.Container.GlobalVector.Runs.{
  Operation, push, pop, set_size, set_capacity, calls, call, list_calls, Agrees, calls-Agrees,
}

abbrev in_parallel : Options
in_parallel = record { parallel_construct = true; parallel_destruct = false; cutoff_count = 2 }

abbrev some_calls : List (Operation ℕ)
some_calls = push 1 ∷ push 2 ∷ set_capacity 9 ∷ set_size 5 7 ∷ pop ∷ set_size 3 0 ∷ push 4 ∷ []

three_pushed :
    calls {A = ℕ} (push 1 ∷ push 2 ∷ push 3 ∷ []) (empty_vector in_parallel)
    ≡ some (record {
      opts = in_parallel;
      block = some (some 1 ∷ some 2 ∷ some 3 ∷ none ∷ []);
      end = 3;
      reserved_end = 4;
    })
unfolding calls call push_back empty_vector grow_if next_size realloc_mem relocate free_if_any
    free_mem copies cells_of write_back construct_cells destruct_cells move_cells
    construct_elems_from_iter destruct_elems loop_generic parallel_loop_generic join_halves
    for_each_leaf written for_each_aux for_each_chunked apply_iterators policy_of assert_parallel
    assert_sequenced to_sequenced_policy
three_pushed = refl

calls-Agrees_example :
    Agrees (calls some_calls (empty_vector in_parallel)) (list_calls some_calls [])
calls-Agrees_example = calls-Agrees in_parallel some_calls (omega arith)
