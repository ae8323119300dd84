-- ===== src/Policy/Sync/Started.antt =====
-- When the start of src/edge/policy/sync.py goes on.
use mathlib.Core.Path.{◌≡◌, refl}
use mathlib.Core.Bool.{Bool, true, false, not, ◌||◌}
use mathlib.Core.Option.{Option, some}
use trustmodel_edge.Value.{Value, PyText}
use trustmodel_edge.Policy.Bundle.{AuthorizedClient, EdgePolicy}
use trustmodel_edge.Policy.Disk.{Codec, Disk}
use trustmodel_edge.Policy.Cache.{PolicyCache, is_warm, replace, replaced}
use trustmodel_edge.Policy.Client.{Fetched, fetched, not_found, fetch_error, fetch_raised, fetch}
use trustmodel_edge.Policy.Sync.{
  Round, State, after_fetch, warmed, sync_once, sync_once_singular, warm,
}

went_on :
    (require_success cache_warm : Bool)
    → not (require_success || not cache_warm) ≡ true
    → cache_warm ≡ true
went_on true w h = absurd (cc)
went_on false true h = refl
went_on false false h = absurd (cc)

module _ (codec : Codec) (py : PyText) (validate_client : Value → Option AuthorizedClient) where
  replaced-is_warm :
      (require_success : Bool) (cache : PolicyCache) (disk : Disk codec.Text) (returned : Bool)
      → is_warm cache ≡ true
      → is_warm (warmed codec py validate_client require_success ((cache, disk), some returned)).0.0
        ≡ true
  replaced-is_warm require_success cache disk true w = w
  replaced-is_warm require_success cache disk false w = w

  after_fetch-is_warm :
      (require_success : Bool) (round : Round) (f : Fetched EdgePolicy) (cache : PolicyCache)
      (disk : Disk codec.Text)
      → (warmed codec py validate_client require_success
          (after_fetch codec py validate_client round f (cache, disk))).1
        ≡ true
      → is_warm
          (warmed codec py validate_client require_success
            (after_fetch codec py validate_client round f (cache, disk))).0.0
        ≡ true
  unfolding replace replaced is_warm
  after_fetch-is_warm require_success round (fetched p) cache disk h =
      replaced-is_warm require_success (replace codec py round.faults round.now disk p).0 _ _ refl
  after_fetch-is_warm require_success round not_found cache disk h =
      went_on require_success (is_warm cache) h
  after_fetch-is_warm require_success round fetch_error cache disk h =
      went_on require_success (is_warm cache) h
  after_fetch-is_warm require_success round fetch_raised cache disk h = absurd (cc)

  -- In single-policy mode a start that goes on has a warm cache, whatever the gateway answers and
  -- whatever fails on disk.
  pub warm-is_warm :
      (require_success : Bool) (round : Round) (state : State codec py validate_client)
      → (warm codec py validate_client require_success false round state).1 ≡ true
      → is_warm (warm codec py validate_client require_success false round state).0.0 ≡ true
  unfolding warm sync_once sync_once_singular
  warm-is_warm require_success round (cache, disk) h =
      after_fetch-is_warm require_success round (fetch codec validate_client round.singular) cache
        disk h
