-- ===== src/Telemetry/Opening/Sound.antt =====
-- That src/edge/telemetry/store.py opens a valid queue.
use Prim.Native.Nat.{ℕ}
use Prim.Native.String.{String}
use mathlib.Core.Path.{◌≡◌, refl, ap}
use mathlib.Core.Logic.{inl, inr}
use mathlib.Core.Option.{Option, none, some}
use mathlib.Core.List.{List}
use trustmodel_edge.Prelude.Tests.{Bool-cases}
use trustmodel_edge.Telemetry.Store.{QueuedEvent, TelemetryStore, AnyTelemetryStore}
use trustmodel_edge.Telemetry.Store.Queue.{IsValid}
use trustmodel_edge.Telemetry.Sender.Kept.{IsValidStore}
use trustmodel_edge.Telemetry.Opening.{
  DbFiles, Opened, opened, database_error, open_raised, Opening, is_corrupt, store_of, open_again,
  rotate_corrupt_files, open_or_recreate, telemetry_store, or_noop, get_store,
}

module _ {F P : Type 0} (connect : DbFiles F → DbFiles F × Opened P) (lower : String → String)
    (opening : Opening) where
  -- SQLite gives the rows of a valid queue that is not longer than the settings allow.
  abbrev pub GivesQueue : Type 0
  GivesQueue =
      (files : DbFiles F) (rows : List (QueuedEvent P)) (next_id : ℕ)
      → (connect files).1 ≡ opened rows next_id
      → IsValid
          (record { rows = rows; next_id = next_id; max_size = opening.max_size; dropped = 0 })

  abbrev GivesStore : Option (TelemetryStore P) → Type 0
  GivesStore none = Unit {0}
  GivesStore (some s) = IsValid s

  store_of-GivesStore :
      (files : DbFiles F) (r : DbFiles F × Opened P)
      → connect files ≡ r
      → GivesQueue
      → GivesStore (store_of connect lower opening.max_size r).1
  store_of-GivesStore files (left, opened rows next_id) e gives =
      gives files rows next_id (ap (λ p. p.1) e)
  store_of-GivesStore files (left, database_error msg) e gives = tt
  store_of-GivesStore files (left, open_raised) e gives = tt

  open_again-GivesStore :
      (files : DbFiles F) (r : DbFiles F × Opened P)
      → connect files ≡ r
      → GivesQueue
      → GivesStore (open_again connect lower opening r).1
  open_again-GivesStore files (left, opened rows next_id) e gives =
      gives files rows next_id (ap (λ p. p.1) e)
  open_again-GivesStore files (left, open_raised) e gives = tt
  open_again-GivesStore files (left, database_error msg) e gives =
      elim (Bool-cases (is_corrupt connect lower msg)) [
        | inl c ↦
            rw c (store_of-GivesStore (rotate_corrupt_files opening.cleanups left) _ refl gives)
        | inr c ↦ rw c tt
      ]

  stored-GivesStore :
      (files : DbFiles F) → GivesQueue → GivesStore (telemetry_store connect lower opening files).1
  unfolding telemetry_store open_or_recreate
  stored-GivesStore files gives = elim (Bool-cases opening.mkdir_fails) [
    | inl e ↦ rw e tt
    | inr e ↦ rw e (open_again-GivesStore files _ refl gives)
  ]

  or_noop-IsValidStore :
      (o : Option (TelemetryStore P)) → GivesStore o → IsValidStore (or_noop connect lower o)
  or_noop-IsValidStore none v = tt
  or_noop-IsValidStore (some s) v = v

  pub first_store-IsValidStore :
      (files : DbFiles F)
      → GivesQueue
      → (s : AnyTelemetryStore P) × ((get_store connect lower none (some opening) files).1 ≡ some s)
        × IsValidStore s
  unfolding get_store
  first_store-IsValidStore files gives = (
    or_noop connect lower (telemetry_store connect lower opening files).1,
    refl,
    or_noop-IsValidStore _ (stored-GivesStore files gives),
  )
