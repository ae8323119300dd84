-- ===== src/Examples/Leaving.antt =====
-- A pod that decides once and sends (src/edge/app.py).
use mathlib.Core.Path.{refl}
use mathlib.Core.Bool.{true, false}
use mathlib.Core.Option.{none}
use mathlib.Core.List.{[]}
use trustmodel_edge.Prelude.Lists.{All}
use trustmodel_edge.Telemetry.Payload.{AuditEvent}
use trustmodel_edge.Telemetry.Store.{durable, fresh, any_dequeue_batch}
use trustmodel_edge.Telemetry.Store.Holding.{OfRow, Holds}
use trustmodel_edge.Telemetry.Contract.{any_queue}
use trustmodel_edge.Telemetry.Sender.{transport_failed}
use trustmodel_edge.Telemetry.Sender.Failing.{nothing_fails, run_round_catching}
use trustmodel_edge.Heartbeat.{looping}
use trustmodel_edge.Routes.Decide.{decide}
use trustmodel_edge.Routes.Decide.Private.{IsPrivate}
use trustmodel_edge.App.{Pod}
use trustmodel_edge.App.Steps.{sends}
use trustmodel_edge.App.Private.{Run, go_on, decide-Run, Run-IsPrivate}
use trustmodel_edge.Examples.Evaluation.{py}
use trustmodel_edge.Examples.Caching
use trustmodel_edge.Examples.Caching.{codec, validate_client}
use trustmodel_edge.Examples.Serving.{cfg, cache, services, moment, body, edge, omits}
use trustmodel_edge.Examples.Enrolling
use trustmodel_edge.Examples.Enrolling.{formats, decimal}

abbrev pod : Pod codec.Text AuditEvent
pod = record {
  enrollment_complete = true;
  heartbeat = none;
  beating = looping;
  files = Enrolling.no_files;
  policy_warm_ok = true;
  policy = (cache, Caching.no_files);
  sender = record {
    store = durable (fresh 100);
    batch_size = 10;
    flush_interval = 5000;
    backoff = 5000;
  };
}

-- After a decision on an action with arguments and a subject.
abbrev decided : Pod codec.Text AuditEvent
decided = record pod {
  sender = record pod.sender {
    store = (decide services cfg cache moment body "Bearer govern:enforce" edge).0.store;
  };
}

abbrev sent : Pod codec.Text AuditEvent
sent = record decided {
  sender =
      (run_round_catching any_queue (nothing_fails, transport_failed "reset", []) decided.sender).0;
}

decided_and_sent : Run services cfg codec py validate_client formats decimal false pod sent
decided_and_sent =
    go_on
      (decide-Run services cfg codec py validate_client formats decimal false pod cache moment body
        "Bearer govern:enforce" edge refl)
      (sends (nothing_fails, transport_failed "reset", [])) tt

Run-IsPrivate_example :
    Holds (IsPrivate services cfg) sent.sender.store
    × All
        (OfRow (IsPrivate services cfg))
        (any_dequeue_batch sent.sender.batch_size sent.sender.store)
Run-IsPrivate_example =
    Run-IsPrivate services cfg codec py validate_client formats decimal false pod sent omits
      decided_and_sent tt
