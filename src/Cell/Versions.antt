-- ===== src/Cell/Versions.antt =====
-- What loads and a cache see of a cell, and the versions that a hook is told of.
use laplace.Prelude.{
  u64_max, ℕ, suc, ◌+◌, ◌≤◌, ◌<◌, ◌≡◌, ◌⊎◌, inl, inr, refl, ap, ◌∙◌, lt→ltb, Bool-cases, Option,
  none, some, List, [], ◌∷◌, ◌==◌, arith,
}
use laplace.Cell.Swap.{
  CellCall, cell_created, cell_load, cell_store, CellHook, cell_hook, ArcSwap, Versioned,
  ModelArcSwap, new_cell, load_cell, store_cell, Cache, new_cache, load_cache,
}

-- What a program does with a cell and a cache of it.
pub data Access (T : Type 0) : Type 0 where
  stores : T → Access T
  loads cached_loads : Access T

-- A hook that is told some calls, the first one first.
abbrev pub cell_told : List CellCall → CellHook → CellHook
cell_told [] hook = hook
cell_told (c ∷ cs) hook = cell_told cs (cell_hook c hook)

-- What the loads should see when the cell has a value: what was stored last.
abbrev pub seen : {T : Type 0} → T → List (Access T) → List T
seen v [] = []
seen v (stores w ∷ xs) = seen w xs
seen v (loads ∷ xs) = v ∷ seen v xs
seen v (cached_loads ∷ xs) = v ∷ seen v xs

-- What the hook should be told when so many values were stored: stores are numbered on, and a load
-- has the number of stores before it.
abbrev pub cell_calls : {T : Type 0} → (resource stored : ℕ) → List (Access T) → List CellCall
cell_calls resource n [] = []
cell_calls resource n (stores w ∷ xs) = cell_store resource (n + 1) ∷ cell_calls resource (n + 1) xs
cell_calls resource n (loads ∷ xs) = cell_load resource n ∷ cell_calls resource n xs
cell_calls resource n (cached_loads ∷ xs) = cell_load resource n ∷ cell_calls resource n xs

abbrev pub stores_of : {T : Type 0} → List (Access T) → ℕ
stores_of [] = 0
stores_of (stores _ ∷ xs) = suc (stores_of xs)
stores_of (_ ∷ xs) = stores_of xs

abbrev sees : {T : Type 0} → T → Option (List T × CellHook) → Option (List T × CellHook)
sees v none = none
sees v (some (vs, hook)) = some (v ∷ vs, hook)

module _ {T : Type 0} (api : ArcSwap (Versioned T)) where
  -- The values that the loads give, and the hook afterwards.
  unfoldable pub run :
      List (Access T) → ModelArcSwap api → Cache T → CellHook → Option (List T × CellHook)
  unfolding load_cell store_cell load_cache
  run [] cell cache hook = some ([], hook)
  run (stores v ∷ xs) cell cache hook = elim (store_cell api v cell hook) [
    | none ↦ none
    | some (cell', hook') ↦ run xs cell' cache hook'
  ]
  run (loads ∷ xs) cell cache hook =
      let (v, hook') = load_cell api cell hook in sees v (run xs cell cache hook')
  run (cached_loads ∷ xs) cell cache hook =
      let (cache', hook') = load_cache api cell cache hook in
      sees cache'.cached (run xs cell cache' hook')

  -- The cell has a value and a version, and the cache an older value or the same.
  pub record Current (v : T) (n : ℕ) (cell : ModelArcSwap api) (cache : Cache T) : Type 0 where
    pub holds : api.load cell.inner ≡ record { version = n; value = v }
    pub counter : cell.next_version ≡ n
    pub older : (cache.cached_version < n) ⊎ ((cache.cached_version ≡ n) × (cache.cached ≡ v))

  -- The cell after a store.
  stored : T → ℕ → ModelArcSwap api → ModelArcSwap api
  stored w n cell = record cell {
    inner = api.store (record { version = n + 1; value = w }) cell.inner;
    next_version = n + 1;
  }

  store_cell-stored :
      (w : T) (n : ℕ) (cell : ModelArcSwap api) (hook : CellHook)
      → cell.next_version ≡ n
      → n < u64_max
      → store_cell api w cell hook
        ≡ some (stored w n cell, cell_hook (cell_store cell.resource (n + 1)) hook)
  unfolding store_cell stored
  store_cell-stored w n cell hook e lt = rw (e, store_cell) (rw (lt→ltb n u64_max lt) refl)

  run-Current :
      (xs : List (Access T)) (v : T) (n : ℕ) (cell : ModelArcSwap api) (cache : Cache T)
      (hook : CellHook)
      → Current v n cell cache
      → n + stores_of xs ≤ u64_max
      → run xs cell cache hook ≡ some (seen v xs, cell_told (cell_calls cell.resource n xs) hook)
  unfolding run stored
  run-Current [] v n cell cache hook k room = refl
  run-Current (stores w ∷ xs) v n cell cache hook k room =
      ap
        (λ (o : Option (ModelArcSwap api × CellHook)). elim o [
          | none ↦ none
          | some (cell', hook') ↦ run xs cell' cache hook'
        ])
        (store_cell-stored w n cell hook k.counter (omega (arith, room)))
      ∙ run-Current xs w (n + 1) (stored w n cell) cache
          (cell_hook (cell_store cell.resource (n + 1)) hook)
          (record {
            holds = api.load-store _ cell.inner;
            counter = refl;
            older = inl (ground (arith, k.older));
          })
          (omega (arith, room))
  run-Current (loads ∷ xs) v n cell cache hook k room = rw k.holds (
      ap (sees v)
        (run-Current xs v n cell cache (cell_hook (cell_load cell.resource n) hook) k room))
  run-Current (cached_loads ∷ xs) v n cell cache hook k room =
      elim (Bool-cases (n == cache.cached_version)) [
        | inl same ↦
            let fresh : cache.cached ≡ v = ground (arith, k.older) in
            rw (k.holds, same)
              (ap (λ u. sees u (run xs cell cache hook')) fresh
                ∙ ap (sees v) (run-Current xs v n cell cache hook' k room))
        | inr other ↦
            rw (k.holds, other)
              (ap (sees v) (
                run-Current xs v n cell (record { cached = v; cached_version = n }) hook'
                  (record { holds = k.holds; counter = k.counter; older = inr (refl, refl) }) room))
      ]
    where
      hook' : CellHook
      hook' = cell_hook (cell_load cell.resource n) hook

  -- Every load of a cell, and every load of a cache of it, gives the value that was stored last, and
  -- the hook is told of each: the stores have the versions from 1 on, and a load has the version of
  -- the value that it gives, as long as fewer than 2 ^ 64 values are stored.
  pub run-seen :
      (value : T) (resource : ℕ) (xs : List (Access T)) (hook : CellHook)
      → stores_of xs ≤ u64_max
      → let (cell, hook') = new_cell api value resource hook in
        run xs cell (new_cache api cell) hook'
        ≡ some (seen value xs, cell_told (cell_created resource ∷ cell_calls resource 0 xs) hook)
  unfolding new_cell new_cache
  run-seen value resource xs hook room =
      run-Current xs value 0 _ _ (cell_hook (cell_created resource) hook)
        (record {
          holds = api.load-new _;
          counter = refl;
          older = inr (ap (λ s. s.version) (api.load-new _), ap (λ s. s.value) (api.load-new _));
        })
        (omega (arith, room))
