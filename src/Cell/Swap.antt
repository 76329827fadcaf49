-- ===== src/Cell/Swap.antt =====
-- crates/laplace-model-rt/src/arc_swap.rs: `ModelArcSwap` and `Cache`, and the calls of hooks.rs's
-- `AsyncCellHook`.
--
-- The cell of the crate `arc_swap` is not code of the repository: it is an interface with its two
-- laws. Operations follow one another, so the lock on the version counter is always free.
use laplace.Prelude.{
  u64_max, ℕ, ◌+◌, ◌≡◌, Option, none, some, List, [], ◌∷◌, ◌++◌, ltb, ◌==◌, if◌then◌else◌,
}

pub data CellCall : Type 0 where
  cell_created : (resource : ℕ) → CellCall
  cell_load cell_store : (resource version : ℕ) → CellCall

-- The installed hook, as the calls that were made on it.
abbrev pub CellHook : Type 0
CellHook = Option (List CellCall)

abbrev pub cell_hook : CellCall → CellHook → CellHook
cell_hook c none = none
cell_hook c (some log) = some (log ++ (c ∷ []))

-- `arc_swap::ArcSwap`: a load gives what was stored last.
pub record ArcSwap (V : Type 0) : Type 1 where
  pub Cell : Type 0
  pub new : V → Cell
  pub load : Cell → V
  pub store : V → Cell → Cell
  pub load-new : (v : V) → load (new v) ≡ v
  pub load-store : (v : V) (c : Cell) → load (store v c) ≡ v

pub record Versioned (T : Type 0) : Type 0 where
  pub version : ℕ
  pub value : T

module _ {T : Type 0} (api : ArcSwap (Versioned T)) where
  pub record ModelArcSwap : Type 0 where
    pub inner : api.Cell
    pub resource : ℕ
    pub next_version : ℕ

  -- `ModelArcSwap::new`, with the id that it asks for.
  unfoldable pub new_cell : T → (resource : ℕ) → CellHook → ModelArcSwap × CellHook
  new_cell value resource hook = (
    record {
      inner = api.new (record { version = 0; value = value });
      resource = resource;
      next_version = 0;
    },
    cell_hook (cell_created resource) hook,
  )

  -- `ModelArcSwap::load`, and `load_full`, which gives the same.
  unfoldable pub load_cell : ModelArcSwap → CellHook → T × CellHook
  load_cell this hook =
      let inner = api.load this.inner in
      (inner.value, cell_hook (cell_load this.resource inner.version) hook)

  -- `ModelArcSwap::store`: `none` is a panic, where the counter is used up.
  unfoldable pub store_cell : T → ModelArcSwap → CellHook → Option (ModelArcSwap × CellHook)
  store_cell value this hook =
      let version = this.next_version + 1 in
      if ltb this.next_version u64_max
      then some (
        record this {
          next_version = version;
          inner = api.store (record { version = version; value = value }) this.inner;
        },
        cell_hook (cell_store this.resource version) hook,
      )
      else none

  unfoldable pub load_snapshot : ModelArcSwap → CellHook → (T × ℕ) × CellHook
  load_snapshot this hook =
      let snapshot = api.load this.inner in
      (
        (snapshot.value, snapshot.version),
        cell_hook (cell_load this.resource snapshot.version) hook,
      )

  unfoldable pub initial_snapshot : ModelArcSwap → T × ℕ
  initial_snapshot this = let snapshot = api.load this.inner in (snapshot.value, snapshot.version)

-- A cache, less the reference to its cell.
pub record Cache (T : Type 0) : Type 0 where
  pub cached : T
  pub cached_version : ℕ

module _ {T : Type 0} (api : ArcSwap (Versioned T)) where
  -- `Cache::new`.
  unfoldable pub new_cache : ModelArcSwap api → Cache T
  unfolding initial_snapshot
  new_cache source =
      let (cached, cached_version) = initial_snapshot api source in
      record { cached = cached; cached_version = cached_version }

  -- `Cache::load`: the value, which is the one that is cached afterwards.
  unfoldable pub load_cache : ModelArcSwap api → Cache T → CellHook → Cache T × CellHook
  unfolding load_snapshot
  load_cache source this hook =
      let ((value, version), hook') = load_snapshot api source hook in
      (
        (if version == this.cached_version
            then this
            else record { cached = value; cached_version = version }),
        hook',
      )
