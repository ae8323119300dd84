-- ===== src/Telemetry/Opening/Recovered.antt =====
-- What `get_store` of src/edge/telemetry/store.py gives, and what becomes of a corrupt queue.
use Prim.Native.Nat.{ℕ}
use Prim.Native.String.{String}
use mathlib.Core.Path.{◌≡◌, refl}
use mathlib.Core.Logic.{◌≢◌}
use mathlib.Core.Bool.{true, false}
use mathlib.Core.Option.{Option, none, some}
use mathlib.Core.List.{List, []}
use trustmodel_edge.Telemetry.Store.{durable, fresh}
use trustmodel_edge.Telemetry.Opening.{
  DbFiles, Opened, opened, database_error, Cleanup, renamed, unlinked, stuck, Cleanups, rotate_one,
  rotate_corrupt_files, Opening, is_corrupt, store_of, open_or_recreate, telemetry_store, get_store,
}

module _ {F P : Type 0} (connect : DbFiles F → DbFiles F × Opened P) (lower : String → String) where
  -- SQLite makes an empty queue where there are none of its files.
  abbrev pub MakesFresh : Type 0
  MakesFresh =
      (aside : List F)
      → (connect (record { db = none; wal = none; shm = none; aside = aside })).1 ≡ opened [] 1

  gone : (c : Cleanup) (o : Option F) → c ≢ stuck → (rotate_one c o).0 ≡ none
  gone c none h = refl
  gone renamed (some f) h = refl
  gone unlinked (some f) h = refl
  gone stuck (some f) h = absurd (h refl)

  rotated-gone :
      (cleanups : Cleanups) (files : DbFiles F)
      → cleanups.db ≢ stuck
      → cleanups.wal ≢ stuck
      → cleanups.shm ≢ stuck
      → rotate_corrupt_files cleanups files ≡ record {
        db = none;
        wal = none;
        shm = none;
        aside = (rotate_corrupt_files cleanups files).aside;
      }
  unfolding rotate_corrupt_files
  rotated-gone cleanups files db wal shm = rw (
    gone cleanups.db files.db db,
    gone cleanups.wal files.wal wal,
    gone cleanups.shm files.shm shm,
  )

  store_of-fresh :
      (max_size : ℕ) (r : DbFiles F × Opened P)
      → r.1 ≡ opened [] 1
      → (store_of connect lower max_size r).1 ≡ some (fresh max_size)
  store_of-fresh max_size (files, r) h = rw h

  -- A corrupt queue does not stop the pod from queuing: where the directory can be made, SQLite
  -- reports one of the corruption markers, and each of the three files can be renamed or deleted,
  -- the store that the first call gets is a durable queue, empty and with the size of the settings;
  -- if SQLite makes an empty queue where there are none of its files.
  pub get_store-fresh :
      (opening : Opening) (files left_files : DbFiles F) (msg : String)
      → opening.mkdir_fails ≡ false
      → connect files ≡ (left_files, database_error msg)
      → is_corrupt connect lower msg ≡ true
      → opening.cleanups.db ≢ stuck
      → opening.cleanups.wal ≢ stuck
      → opening.cleanups.shm ≢ stuck
      → MakesFresh
      → (get_store connect lower none (some opening) files).1
        ≡ some (durable (fresh opening.max_size))
  unfolding get_store telemetry_store open_or_recreate
  get_store-fresh opening files left_files msg dir e corrupt db wal shm makes = rw (
    dir,
    e,
    corrupt,
    rotated-gone opening.cleanups left_files db wal shm,
    store_of-fresh opening.max_size
        (connect (record {
          db = none;
          wal = none;
          shm = none;
          aside = (rotate_corrupt_files opening.cleanups left_files).aside;
        }))
        (makes (rotate_corrupt_files opening.cleanups left_files).aside),
  )
