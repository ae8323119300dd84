-- ===== src/Examples/Recovering.antt =====
-- What the sender and `decide` (src/edge/telemetry/sender.py, src/edge/routes/decide.py) do after failures.
use Prim.Native.Nat.{◌+◌, ◌*◌, ◌≤◌}
use Prim.Native.String.{String}
use mathlib.Core.Path.{◌≡◌, refl}
use mathlib.Core.Bool.{true, false}
use mathlib.Core.Option.{none, some}
use mathlib.Core.List.{[], ◌∷◌}
use native.Mathlib.Omega.{arith}
use trustmodel_edge.Prelude.Lists.{All}
use trustmodel_edge.Config.{Settings, default_settings, is_accepted}
use trustmodel_edge.Policy.Cache.{empty_cache, compile}
use trustmodel_edge.Policy.Client.{fetched, fetch}
use trustmodel_edge.Policy.Sync.{sync_once}
use trustmodel_edge.Telemetry.Store.{durable, fresh}
use trustmodel_edge.Telemetry.Sender.{status, transport_failed}
use trustmodel_edge.Telemetry.Contract.{any_queue}
use trustmodel_edge.Telemetry.Sender.Bounds.{Naps}
use trustmodel_edge.Telemetry.Sender.Failing.{nothing_fails, writes_fail, run_forever_catching}
use trustmodel_edge.Telemetry.Sender.Failing.Paced.{run_forever_catching-Naps}
use trustmodel_edge.Routes.Decide.{decide_routed, decide_fresh}
use trustmodel_edge.Routes.Decide.Recovers.{decide_routed-sync_once, decide_routed-sync_once_multi}
use trustmodel_edge.Policy.Cache.Reads.{last_named}
use trustmodel_edge.Policy.Client.{Active, fetch_all}
use trustmodel_edge.Routes.Decide.{DecideRequest, routed_name}
use trustmodel_edge.Examples.Evaluation.{py}
use trustmodel_edge.Examples.Caching.{codec, main, validate_client, good_round}
use trustmodel_edge.Examples.Caching
use trustmodel_edge.Examples.Serving

abbrev cfg : Settings
cfg = default_settings "acme"

accepted : is_accepted cfg ≡ true
unfolding is_accepted default_settings
accepted = refl

run_forever_catching-Naps_example :
    All Naps
      (run_forever_catching
        (any_queue {P = String})
        ((nothing_fails, status 503 "busy", []) ∷ (writes_fail, transport_failed "reset", []) ∷ [])
        (record {
          store = durable (fresh 10);
          batch_size = cfg.telemetry_batch_size;
          flush_interval = cfg.telemetry_flush_interval;
          backoff = cfg.telemetry_flush_interval;
        })).1
run_forever_catching-Naps_example =
    run_forever_catching-Naps (any_queue {P = String}) cfg (durable (fresh 10))
      ((nothing_fails, status 503 "busy", []) ∷ (writes_fail, transport_failed "reset", []) ∷ [])
      accepted

main_fetched : fetch codec validate_client good_round.singular ≡ fetched main
unfolding fetch
main_fetched = refl

in_time : Serving.moment.now ≤ good_round.now + Serving.cfg.policy_stale_threshold_seconds * 1000000
unfolding default_settings
in_time = omega arith

single_mode : Serving.cfg.multi_policy_enabled ≡ false
unfolding default_settings
single_mode = refl

decide_routed-sync_once_example :
    decide_routed Serving.services Serving.cfg
      (sync_once codec py validate_client false good_round (empty_cache, Caching.no_files)).0.0
      Serving.moment
      Serving.body
      none
      Serving.edge
    ≡ decide_fresh Serving.services Serving.cfg
        (sync_once codec py validate_client false good_round (empty_cache, Caching.no_files)).0.0
        Serving.moment
        Serving.body
        (compile py main)
        none
        Serving.edge
decide_routed-sync_once_example =
    decide_routed-sync_once codec Serving.services Serving.cfg Serving.moment Serving.body
      validate_client good_round (empty_cache, Caching.no_files) main main_fetched single_mode
      in_time none Serving.edge

abbrev several : Settings
several = record Serving.cfg { multi_policy_enabled = true }

abbrev naming : DecideRequest
naming = record Serving.body { policy_name = some "main" }

-- The plural endpoint is not there, so that the one policy is fetched.
abbrev one_active : Active
one_active = record {
  policies = main ∷ [];
  primary_name = some "main";
  clients = main.authorized_clients;
}

active_fetched :
    fetch_all codec validate_client good_round.plural good_round.singular ≡ fetched one_active
unfolding fetch_all fetch
active_fetched = refl

routed_to_main : routed_name several naming ≡ some "main"
routed_to_main = refl

last_is_main : last_named "main" one_active.policies ≡ some main
last_is_main = refl

decide_routed-sync_once_multi_example :
    decide_routed Serving.services several
      (sync_once codec py validate_client true good_round (empty_cache, Caching.no_files)).0.0
      Serving.moment
      naming
      none
      Serving.edge
    ≡ decide_fresh Serving.services several
        (sync_once codec py validate_client true good_round (empty_cache, Caching.no_files)).0.0
        Serving.moment
        naming
        (compile py main)
        none
        Serving.edge
decide_routed-sync_once_multi_example =
    decide_routed-sync_once_multi codec Serving.services several Serving.moment naming
      validate_client good_round (empty_cache, Caching.no_files) one_active "main" main
      active_fetched routed_to_main last_is_main in_time none Serving.edge
