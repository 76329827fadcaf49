-- ===== src/StdLock/Counts.antt =====
-- How the numbers of uses and of calls of the lock hook change with one use.
use laplace.Prelude.{
  count, count-set, count-append, one, at, set, ℕ, ◌+◌, ◌==◌, ◌≡◌, refl, Bool, true, false, ◌&&◌,
  none, some, [], ◌∷◌, ◌++◌, arith,
}
use laplace.StdLock.Calls.{Call, acquire, release, HookCalls, tell, is_installed}
use laplace.StdLock.Guards.{
  LockWay, UsePhase, waiting, holding, done, lost, LockUse, LockWorld, in_phase,
}

abbrev pub is_acquire : (resource : ℕ) → Call → Bool
is_acquire r (acquire s) = s == r
is_acquire r (release _) = false

abbrev pub is_release : (resource : ℕ) → Call → Bool
is_release r (acquire _) = false
is_release r (release s) = s == r

abbrev pub told : (Call → Bool) → HookCalls → ℕ
told f none = 0
told f (some calls) = count f calls

abbrev pub is_waiting : UsePhase → Bool
is_waiting waiting = true
is_waiting _ = false

abbrev pub is_holding : UsePhase → Bool
is_holding holding = true
is_holding _ = false

abbrev pub is_lost : UsePhase → Bool
is_lost lost = true
is_lost _ = false

abbrev pub is_use : (UsePhase → Bool) → (resource : ℕ) → LockUse → Bool
is_use f r u = f u.phase && (u.resource == r)

-- The hook is installed, and was told of one acquisition of the resource for each release and each
-- use that waits, holds or is lost.
pub record Balanced (r : ℕ) (w : LockWorld) : Type 0 where
  pub installed : is_installed w.hook ≡ true
  pub balance :
      told (is_acquire r) w.hook
      ≡ told (is_release r) w.hook
        + (count (is_use is_waiting r) w.uses
            + (count (is_use is_holding r) w.uses + count (is_use is_lost r) w.uses))

module _ (r : ℕ) where
  told-tell :
      (f : Call → Bool) (c : Call) (hook : HookCalls)
      → is_installed hook ≡ true
      → (told f (tell c hook) ≡ told f hook + one (f c)) × (is_installed (tell c hook) ≡ true)
  told-tell f c none h = absurd (ground arith)
  told-tell f c (some calls) h = (count-append f calls c, refl)

  -- The hook is told of an acquisition just as a use begins that is not done.
  pub begun-Balanced :
      (way : LockWay) (s : ℕ) (p : UsePhase) (w : LockWorld)
      → one (is_waiting p) + (one (is_holding p) + one (is_lost p)) ≡ 1
      → Balanced r w
      → Balanced r (record {
        uses = w.uses ++ (record { way = way; resource = s; phase = p } ∷ []);
        hook = tell (acquire s) w.hook;
      })
  begun-Balanced way s p w undone b =
      let (a, installed) = told-tell (is_acquire r) (acquire s) w.hook b.installed in
      let (c, _) = told-tell (is_release r) (acquire s) w.hook b.installed in
      let u : LockUse = record { way = way; resource = s; phase = p } in
      record {
        installed = installed;
        balance = ground (
          arith,
          b.balance,
          undone,
          a,
          c,
          count-append (is_use is_waiting r) w.uses u,
          count-append (is_use is_holding r) w.uses u,
          count-append (is_use is_lost r) w.uses u,
        );
      }

  -- A use goes on, and the hook is told of nothing.
  pub moved-Balanced :
      (i : ℕ) (u : LockUse) (p : UsePhase) (w : LockWorld)
      → at i w.uses ≡ some u
      → one (is_waiting p) + (one (is_holding p) + one (is_lost p))
        ≡ one (is_waiting u.phase) + (one (is_holding u.phase) + one (is_lost u.phase))
      → Balanced r w
      → Balanced r (record w { uses = set i (in_phase p u) w.uses })
  moved-Balanced i u p w found same b = record {
    installed = b.installed;
    balance = ground (
      arith,
      b.balance,
      same,
      count-set (is_use is_waiting r) i u (in_phase p u) w.uses found,
      count-set (is_use is_holding r) i u (in_phase p u) w.uses found,
      count-set (is_use is_lost r) i u (in_phase p u) w.uses found,
    );
  }

  -- A use ends, and the hook is told of the release.
  pub ended-Balanced :
      (i : ℕ) (u : LockUse) (w : LockWorld)
      → at i w.uses ≡ some u
      → u.phase ≡ holding
      → Balanced r w
      → Balanced r (record {
        uses = set i (in_phase done u) w.uses;
        hook = tell (release u.resource) w.hook;
      })
  ended-Balanced i u w found held b =
      let (a, installed) = told-tell (is_acquire r) (release u.resource) w.hook b.installed in
      let (c, _) = told-tell (is_release r) (release u.resource) w.hook b.installed in
      record {
        installed = installed;
        balance = ground (
          arith,
          b.balance,
          held,
          a,
          c,
          count-set (is_use is_waiting r) i u (in_phase done u) w.uses found,
          count-set (is_use is_holding r) i u (in_phase done u) w.uses found,
          count-set (is_use is_lost r) i u (in_phase done u) w.uses found,
        );
      }

  -- A try that fails tells the hook of nothing.
  pub failed-Balanced :
      (way : LockWay) (s : ℕ) (w : LockWorld)
      → Balanced r w
      → Balanced r (record {
        uses = w.uses ++ (record { way = way; resource = s; phase = done } ∷ []);
        hook = w.hook;
      })
  failed-Balanced way s w b =
      let u : LockUse = record { way = way; resource = s; phase = done } in
      record {
        installed = b.installed;
        balance = ground (
          arith,
          b.balance,
          count-append (is_use is_waiting r) w.uses u,
          count-append (is_use is_holding r) w.uses u,
          count-append (is_use is_lost r) w.uses u,
        );
      }
