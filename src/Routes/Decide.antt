-- ===== src/Routes/Decide.antt =====
-- src/edge/routes/decide.py: the body of `POST /v1/decide` has been validated.
pub mod Guarded
pub mod Answered
pub mod Queued
pub mod Private
pub mod Subject
pub mod Recovers
use Prim.Native.Nat.{ℕ, ◌+◌, ◌/◌}
use Prim.Native.Char.{code}
use Prim.Native.String
use Prim.Native.String.{String}
use mathlib.Core.Bool.{Bool, true, false, not}
use mathlib.Core.Option.{Option, none, some}
use mathlib.Core.List.{List, [], ◌∷◌}
use text.Mathlib.Text.{◌==◌}
use trustmodel_edge.Prelude.Tests.{if◌then◌else◌, or_else}
use trustmodel_edge.Prelude.Int.{pos, negsuc, sub_ℕ}
use trustmodel_edge.Prelude.Dict.{Dict, lookup, insert}
use trustmodel_edge.Prelude.Text.{join}
use trustmodel_edge.Value.{Value, int, PyText}
use trustmodel_edge.Config.{Settings}
use trustmodel_edge.Policy.Cache.{PolicyCache, compiled_by_name, primary_compiled, all_names}
use trustmodel_edge.Policy.Stale.{Age, infinite, micros, status, fail_mode_verdict}
use trustmodel_edge.Engine.Compiler.{CompiledPolicy}
use trustmodel_edge.Engine.Evaluator.{EvaluationInput, EvaluationResult, evaluate}
use trustmodel_edge.Telemetry.Store.{AnyTelemetryStore, any_enqueue}
use trustmodel_edge.Telemetry.Payload.{AuditEvent, build_audit_event, hash_subject}
use trustmodel_edge.Oauth.{Crypto}
use trustmodel_edge.Routes.Bearer.{Moment, require_agent_token}
use trustmodel_edge.Routes.{
  message, policy_not_found, Outcome, replied, http_error, raised, AppState,
}

pub record DecideRequest : Type 0 where
  pub tool : String
  pub args : Dict Value
  pub subject : Option String
  pub subject_attrs : Option (Dict Value)
  pub agent_id : Option String
  pub policy_name : Option String

pub record DecideResponse : Type 0 where
  pub verdict : String
  pub rule_id : String
  pub reason : String
  pub redactions : List String
  pub matched_framework_tags : List String
  pub latency_ms : ℕ
  pub policy_id : Option String
  pub policy_version : Option String
  pub stale : Bool

-- The counters of src/edge/metrics/prometheus.py that `decide` writes, and the observed latencies.
pub record Metrics : Type 0 where
  pub decisions : Dict ℕ
  pub cache_hits : ℕ
  pub not_found : ℕ
  pub latencies : List ℕ

pub record Edge : Type 0 where
  pub app : AppState
  pub metrics : Metrics
  pub store : AnyTelemetryStore AuditEvent

-- `uuid5` in the namespace of tenants; `hmac` takes the key and the subject.
pub record Services : Type 0 where
  pub crypto : Crypto
  pub py : PyText
  pub uuid5 : String → String
  pub hmac : String → String → String

unfoldable inc : String → Dict ℕ → Dict ℕ
unfolding lookup insert
inc label counts = insert label (or_else (lookup label counts) 0 + 1) counts

abbrev count_decision : String → Edge → Edge
count_decision verdict edge = record edge {
  metrics = record edge.metrics { decisions = inc verdict edge.metrics.decisions };
}

-- `a or b`, for texts that may be None.
abbrev pub or_text : Option String → Option String → Option String
or_text none b = b
or_text (some a) b = if a == "" then b else some a

-- The name that the request names, if it counts.
abbrev pub routed_name : Settings → DecideRequest → Option String
routed_name cfg body = if cfg.multi_policy_enabled then or_text body.policy_name none else none

-- `int(seconds)` in an f-string; it raises for an infinite age.
abbrev seconds_text : PyText → Age → Option String
seconds_text py infinite = none
seconds_text py (micros (pos n)) = some (py.text_of (int (pos (n / 1000000))))
seconds_text py (micros (negsuc n)) = some (py.text_of (int (sub_ℕ 0 ((n + 1) / 1000000))))

module _ (services : Services) (cfg : Settings) (cache : PolicyCache) (at : Moment)
    (body : DecideRequest) where
  -- No policy at all.
  pub decide_cold : Edge → Edge × Outcome DecideResponse
  unfolding fail_mode_verdict inc
  decide_cold edge =
      let (verdict, reason) = fail_mode_verdict cfg.policy_fail_mode in
      if cfg.policy_fail_mode == "closed"
      then (edge, http_error 503 (message "policy cache not warm"))
      else (
        count_decision verdict edge,
        replied (record {
          verdict = verdict;
          rule_id = reason;
          reason = "no policy cached; fail-open per tenant config";
          redactions = [];
          matched_framework_tags = [];
          latency_ms = 0;
          policy_id = none;
          policy_version = none;
          stale = true;
        }),
      )

  abbrev stale_response : CompiledPolicy → String → String → String → DecideResponse
  stale_response compiled verdict reason seconds = record {
    verdict = verdict;
    rule_id = reason;
    reason = join "" (
        "policy stale (" ∷ seconds ∷ "s since last sync); applying fail_mode="
        ∷ cfg.policy_fail_mode ∷ []);
    redactions = [];
    matched_framework_tags = [];
    latency_ms = 0;
    policy_id = some compiled.policy_id;
    policy_version = some compiled.version;
    stale = true;
  }

  pub decide_stale : CompiledPolicy → Age → Edge → Edge × Outcome DecideResponse
  unfolding fail_mode_verdict inc
  decide_stale compiled age edge =
      let (verdict, reason) = fail_mode_verdict cfg.policy_fail_mode in
      let edge' = count_decision verdict edge in
      elim (seconds_text services.py age) [
        | none ↦ (edge', raised)
        | some seconds ↦ (edge', replied (stale_response compiled verdict reason seconds))
      ]

  abbrev pub evaluation_input : EvaluationInput
  evaluation_input = record {
    tool = body.tool;
    args = body.args;
    subject = body.subject;
    subject_attrs = body.subject_attrs;
  }

  -- `forwarded_args`, `forwarded_subject` and the event.
  pub audit_event : CompiledPolicy → Option String → EvaluationResult → AuditEvent
  unfolding build_audit_event hash_subject
  audit_event compiled agent_id result =
      build_audit_event services.uuid5 at.event_id at.occurred_at cfg.tenant_id agent_id
        (if cfg.telemetry_omit_payload
          then some (hash_subject services.hmac body.subject cfg.telemetry_subject_hash_key)
          else body.subject)
        compiled.policy_id result.verdict result.rule_id result.reason body.tool
        (if cfg.telemetry_omit_payload then [] else body.args) result.redactions
        result.matched_framework_tags result.latency_ms

  abbrev pub response : CompiledPolicy → EvaluationResult → DecideResponse
  response compiled result = record {
    verdict = result.verdict;
    rule_id = result.rule_id;
    reason = result.reason;
    redactions = result.redactions;
    matched_framework_tags = result.matched_framework_tags;
    latency_ms = result.latency_ms;
    policy_id = some compiled.policy_id;
    policy_version = some compiled.version;
    stale = false;
  }

  abbrev measured : EvaluationResult → Metrics → Metrics
  measured result m = record m {
    cache_hits = m.cache_hits + 1;
    decisions = inc result.verdict m.decisions;
    latencies = at.latency ∷ m.latencies;
  }

  -- Evaluation, metrics, the audit event.
  pub decide_fresh : CompiledPolicy → Option String → Edge → Edge × Outcome DecideResponse
  unfolding evaluate audit_event any_enqueue inc
  decide_fresh compiled agent_id edge =
      let result = evaluate services.py at.elapsed compiled evaluation_input in
      let (store', queued) =
        any_enqueue at.enqueue_fails at.enqueued_at (audit_event compiled agent_id result)
          edge.store in
      let edge' = record edge { metrics = measured result edge.metrics; store = store' } in
      elim queued [ none ↦ (edge', raised) | some _ ↦ (edge', replied (response compiled result)) ]

  pub decide_compiled : CompiledPolicy → Option String → Edge → Edge × Outcome DecideResponse
  unfolding status decide_stale decide_fresh
  decide_compiled compiled agent_id edge =
      let stale = status at.now cache cfg.policy_stale_threshold_seconds in
      if stale.is_stale
      then decide_stale compiled stale.since_refresh edge
      else decide_fresh compiled agent_id edge

  pub name_not_found : String → Edge → Edge × Outcome DecideResponse
  unfolding all_names
  name_not_found name edge = (
    record edge { metrics = record edge.metrics { not_found = edge.metrics.not_found + 1 } },
    http_error 400 (
        policy_not_found
          (join "" ("policy_name=" ∷ services.py.repr name ∷ " not found in Edge cache" ∷ []))
          (all_names cache)),
  )

  -- Behind the authentication.
  pub decide_routed : Option String → Edge → Edge × Outcome DecideResponse
  unfolding compiled_by_name primary_compiled name_not_found decide_cold decide_compiled
  decide_routed agent_id edge = elim (routed_name cfg body) [
    | some name ↦ elim (compiled_by_name cache name) [
      | none ↦ name_not_found name edge
      | some compiled ↦ decide_compiled compiled agent_id edge
    ]
    | none ↦ elim (primary_compiled cache) [
      | none ↦ decide_cold edge
      | some compiled ↦ decide_compiled compiled agent_id edge
    ]
  ]

  unfoldable pub decide : String → Edge → Edge × Outcome DecideResponse
  unfolding require_agent_token decide_routed
  decide authorization edge =
      let (app', auth) = require_agent_token services.crypto at authorization edge.app in
      let edge' = record edge { app = app' } in
      elim auth [
        | http_error code detail ↦ (edge', http_error code detail)
        | raised ↦ (edge', raised)
        | replied claims ↦ decide_routed (or_text claims.agent_id body.agent_id) edge'
      ]
