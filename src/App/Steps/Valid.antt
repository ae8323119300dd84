-- ===== src/App/Steps/Valid.antt =====
-- What holds of the cache and of the queue of a pod of src/edge/app.py at every time.
use Prim.Native.Nat.{ℕ}
use Prim.Native.Char.{Char}
use Prim.Native.String.{String}
use mathlib.Core.Path.{◌≡◌, refl, sym, ap, ◌∙◌, subst}
use mathlib.Core.Bool.{Bool, false}
use mathlib.Core.Option.{Option, some}
use trustmodel_edge.Value.{Value, PyText}
use trustmodel_edge.Policy.Bundle.{AuthorizedClient}
use trustmodel_edge.Policy.Disk.{Codec, Disk}
use trustmodel_edge.Config.{Settings}
use trustmodel_edge.Policy.Cache.{PolicyCache, empty_cache}
use trustmodel_edge.Policy.Cache.Loading.{Load, loaded, not_loaded, crashed, load_from_disk}
use trustmodel_edge.Policy.Cache.Validity.{IsValid, empty_cache-IsValid}
use trustmodel_edge.Policy.Cache.Restored.{load_from_disk-IsValid}
use trustmodel_edge.Policy.Sync.Kept.{sync_once-IsValid, warm-IsValid}
use trustmodel_edge.Telemetry.Opening.{DbFiles, Opened, Opening}
use trustmodel_edge.Telemetry.Opening.Sound.{GivesQueue, first_store-IsValidStore}
use trustmodel_edge.Telemetry.Sender.Kept.{HasValidStore, any_enqueue-IsValidStore}
use trustmodel_edge.Identity.{Formats}
use trustmodel_edge.App.{
  Pod, StateDir, Surroundings, running, startup, cache_of, opening_of, first_round,
}
use trustmodel_edge.Telemetry.Contract.{any_queue}
use trustmodel_edge.Telemetry.Sender.Failing.Kept.{HasValidStore-IsClosed, kept-run_round_catching}
use trustmodel_edge.App.Began.{Began, startup-Began}
use trustmodel_edge.App.Steps.{Step, beats, syncs, sends, decides, Reach, Reach-keeps}

cached :
    (codec : Codec) (py : PyText) (disk : Disk codec.Text) (cache : PolicyCache) (l : Load)
    → load_from_disk codec py disk ≡ l
    → cache_of l ≡ some cache
    → IsValid py cache
cached codec py disk cache (loaded c) e h =
    load_from_disk-IsValid codec py disk cache (e ∙ ap loaded cc)
cached codec py disk cache not_loaded e h =
    let same : empty_cache ≡ cache = cc in subst (IsValid py) same (empty_cache-IsValid py)
cached codec py disk cache crashed e h = absurd (cc)

module _ {P : Type 0} (codec : Codec) (py : PyText)
    (validate_client : Value → Option AuthorizedClient) (formats : Formats)
    (decimal : Char → Option ℕ) (multi : Bool) where
  abbrev pub IsSound : Pod codec.Text P → Type 0
  IsSound pod = IsValid py pod.policy.0 × HasValidStore pod.sender

  Step-IsSound :
      (pod next : Pod codec.Text P)
      → Step codec py validate_client formats decimal multi pod next
      → IsSound pod
      → IsSound next
  Step-IsSound pod next (beats state tick h e) sound = sound
  Step-IsSound pod next (syncs round) (cache, queue) =
      (sync_once-IsValid codec py validate_client multi round pod.policy cache, queue)
  Step-IsSound pod next (sends meeting) (cache, queue) = (
    cache,
    kept-run_round_catching any_queue (λ cs. Unit {0}) HasValidStore HasValidStore-IsClosed meeting
        pod.sender tt queue,
  )
  Step-IsSound pod next (decides fails now event) (cache, queue) =
      (cache, any_enqueue-IsValidStore fails now event pod.sender.store queue)

  reached-IsSound :
      (pod last : Pod codec.Text P)
      → Reach codec py validate_client formats decimal multi pod last
      → IsSound pod
      → IsSound last
  reached-IsSound = Reach-keeps codec py validate_client formats decimal multi IsSound Step-IsSound

  module _ {F : Type 0} (connect : DbFiles F → DbFiles F × Opened P) (lower : String → String)
      (cfg : Settings) (around : Surroundings) (dir : StateDir codec.Text F) where
    abbrev pub first_opening : Opening
    first_opening = opening_of codec py validate_client formats connect lower cfg around

    Began-IsSound :
        (skip : Bool) (pod : Pod codec.Text P)
        → Began codec py validate_client formats connect lower cfg around dir pod skip
        → GivesQueue connect lower first_opening
        → IsSound pod
    Began-IsSound skip pod b gives =
        let (s, e, valid) =
          first_store-IsValidStore connect lower first_opening dir.db_files gives in
        subst IsSound (sym b.serves) (
          warm-IsValid codec py validate_client false cfg.multi_policy_enabled
              (first_round around b.minted) (b.cache, dir.policy_files)
              (cached codec py dir.policy_files b.cache _ refl b.on_disk),
          rw e valid,
        )

    -- At every time of a pod, whatever it found on disk and whatever fails, and however its heartbeats,
    -- syncs, sender and decisions take turns, the cache is valid (its primary is in the map, every
    -- policy stands compiled under its own name, a warm cache has a time) and the queue is valid (its
    -- ids ascend and it is not longer than its maximum), if SQLite gives the rows of such a queue.
    pub Reach-IsSound :
        (skip : Bool) (pod last : Pod codec.Text P)
        → startup codec py validate_client formats connect lower cfg skip around dir ≡ running pod
        → GivesQueue connect lower first_opening
        → Reach codec py validate_client formats decimal multi pod last
        → IsSound last
    Reach-IsSound skip pod last h gives reached = reached-IsSound pod last reached (
        Began-IsSound skip pod
          (startup-Began codec py validate_client formats connect lower cfg around dir pod skip h)
          gives)
