-- ===== src/Scenarios/Cell.antt =====
-- A cell whose contents are a variable, and a cache that misses a store and then sees it.
use laplace.Prelude.{ℕ, ◌≡◌, refl, some, List, [], ◌∷◌, arith}
use laplace.Cell.Swap.{ArcSwap, Versioned, new_cell, new_cache, cell_created, cell_load, cell_store}
use laplace.Cell.Versions.{
  Access, stores, loads, cached_loads, run, seen, cell_told, cell_calls, run-seen,
}

abbrev variable : ArcSwap (Versioned ℕ)
variable = record {
  Cell = Versioned ℕ;
  new = λ v. v;
  load = λ c. c;
  store = λ v c. v;
  load-new = λ v. refl;
  load-store = λ v c. refl;
}

abbrev accesses : List (Access ℕ)
accesses = cached_loads ∷ stores 30 ∷ loads ∷ cached_loads ∷ []

run_trace :
    let (cell, hook') = new_cell variable 20 6 (some []) in
    run variable accesses cell (new_cache variable cell) hook'
    ≡ some (
      20 ∷ 30 ∷ 30 ∷ [],
      some (cell_created 6 ∷ cell_load 6 0 ∷ cell_store 6 1 ∷ cell_load 6 1 ∷ cell_load 6 1 ∷ []),
    )
unfolding run new_cell new_cache
run_trace = refl

run-seen_example :
    let (cell, hook') = new_cell variable 20 6 (some []) in
    run variable accesses cell (new_cache variable cell) hook'
    ≡ some (seen 20 accesses, cell_told (cell_created 6 ∷ cell_calls 6 0 accesses) (some []))
run-seen_example = run-seen variable 20 6 accesses (some []) (omega arith)
