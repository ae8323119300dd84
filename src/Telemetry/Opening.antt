-- ===== src/Telemetry/Opening.antt =====
-- How src/edge/telemetry/store.py opens the queue, and its `get_store`. SQLite is `connect`, which runs
-- the DDL on the files as they are; `lower` is `str.lower`.
pub mod Recovered
pub mod Sound
use Prim.Native.Nat.{ℕ}
use Prim.Native.String
use Prim.Native.String.{String}
use mathlib.Core.Bool.{Bool, false, ◌||◌}
use mathlib.Core.Option.{Option, none, some}
use mathlib.Core.List.{List, [], ◌∷◌, ◌++◌}
use trustmodel_edge.Prelude.Tests.{if◌then◌else◌}
use trustmodel_edge.Prelude.Text.{starts_with}
use trustmodel_edge.Telemetry.Store.{TelemetryStore, AnyTelemetryStore, durable, noop, QueuedEvent}

-- `s in t` for texts
unfoldable occurs : String → String → Bool
occurs s String.[] = starts_with String.[] s
occurs s (String.◌∷◌ c t) = starts_with (String.◌∷◌ c t) s || occurs s t

-- `_CORRUPTION_MARKERS`
abbrev corruption_markers : List String
corruption_markers =
    "database disk image is malformed" ∷ "file is not a database" ∷ "database is locked" ∷ []

unfoldable pub any_occurs : List String → String → Bool
unfolding occurs
any_occurs [] t = false
any_occurs (s ∷ ss) t = occurs s t || any_occurs ss t

-- telemetry.db, telemetry.db-wal and telemetry.db-shm, those that exist, and the files that were moved
-- aside.
pub record DbFiles (F : Type 0) : Type 0 where
  pub db : Option F
  pub wal : Option F
  pub shm : Option F
  pub aside : List F

-- How `executescript(_DDL)` ends: with the rows of the queue and the next id, `DatabaseError` with
-- its text, or another exception.
pub data Opened (P : Type 0) : Type 0 where
  opened : List (QueuedEvent P) → ℕ → Opened P
  database_error : String → Opened P
  open_raised : Opened P

-- What the file system allows for one file: the rename, else the unlink, else neither.
pub data Cleanup : Type 0 where
  renamed : Cleanup
  unlinked : Cleanup
  stuck : Cleanup

pub record Cleanups : Type 0 where
  pub db : Cleanup
  pub wal : Cleanup
  pub shm : Cleanup

module _ {F : Type 0} where
  -- One round of the loop: the file, if it is left, and what was moved aside.
  abbrev pub rotate_one : Cleanup → Option F → Option F × List F
  rotate_one c none = (none, [])
  rotate_one renamed (some f) = (none, f ∷ [])
  rotate_one unlinked (some f) = (none, [])
  rotate_one stuck (some f) = (some f, [])

  pub rotate_corrupt_files : Cleanups → DbFiles F → DbFiles F
  rotate_corrupt_files cleanups files = record {
    db = (rotate_one cleanups.db files.db).0;
    wal = (rotate_one cleanups.wal files.wal).0;
    shm = (rotate_one cleanups.shm files.shm).0;
    aside =
        files.aside
        ++ ((rotate_one cleanups.db files.db).1
            ++ ((rotate_one cleanups.wal files.wal).1 ++ (rotate_one cleanups.shm files.shm).1));
  }

-- The settings of the first call, what the file system refuses, and the store of the process.
pub record Opening : Type 0 where
  pub max_size : ℕ
  pub mkdir_fails : Bool
  pub cleanups : Cleanups

module _ {F P : Type 0} (connect : DbFiles F → DbFiles F × Opened P) (lower : String → String) where
  abbrev pub is_corrupt : String → Bool
  is_corrupt msg = any_occurs corruption_markers (lower msg)

  -- `none` is an exception.
  abbrev pub store_of : ℕ → DbFiles F × Opened P → DbFiles F × Option (TelemetryStore P)
  store_of max_size (files, opened rows next_id) =
      (files, some (record { rows = rows; next_id = next_id; max_size = max_size; dropped = 0 }))
  store_of max_size (files, database_error msg) = (files, none)
  store_of max_size (files, open_raised) = (files, none)

  abbrev pub open_again : Opening → DbFiles F × Opened P → DbFiles F × Option (TelemetryStore P)
  open_again opening (files, database_error msg) =
      if is_corrupt msg
      then store_of opening.max_size (connect (rotate_corrupt_files opening.cleanups files))
      else (files, none)
  open_again opening (files, opened rows next_id) =
      store_of opening.max_size (files, opened rows next_id)
  open_again opening (files, open_raised) = (files, none)

  pub open_or_recreate : Opening → DbFiles F → DbFiles F × Option (TelemetryStore P)
  unfolding any_occurs rotate_corrupt_files
  open_or_recreate opening files = open_again opening (connect files)

  -- `TelemetryStore.__init__`
  pub telemetry_store : Opening → DbFiles F → DbFiles F × Option (TelemetryStore P)
  unfolding open_or_recreate
  telemetry_store opening files =
      if opening.mkdir_fails then (files, none) else open_or_recreate opening files

  abbrev pub or_noop : Option (TelemetryStore P) → AnyTelemetryStore P
  or_noop none = noop 0
  or_noop (some s) = durable s

  -- The store of the process, the argument of the call (`none` where `state_dir` or `max_size` is
  -- missing), and the store that is returned: `none` is RuntimeError. The store that is returned is the
  -- store of the process from then on.
  unfoldable pub get_store :
      Option (AnyTelemetryStore P)
      → Option Opening
      → DbFiles F
      → DbFiles F × Option (AnyTelemetryStore P)
  unfolding telemetry_store
  get_store (some s) args files = (files, some s)
  get_store none none files = (files, none)
  get_store none (some opening) files =
      let (files', s) = telemetry_store opening files in (files', some (or_noop s))
