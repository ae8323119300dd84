-- ===== src/Routes/Decide/Queued.antt =====
-- What `decide` of src/edge/routes/decide.py puts into the telemetry queue.
use Prim.Native.String.{String}
use mathlib.Core.Path.{◌≡◌, refl}
use mathlib.Core.Logic.{◌⊎◌, inl, inr}
use mathlib.Core.Bool.{Bool}
use mathlib.Core.Option.{Option, none, some}
use text.Mathlib.Text.{◌==◌}
use trustmodel_edge.Prelude.Tests.{Bool-cases}
use trustmodel_edge.Config.{Settings}
use trustmodel_edge.Policy.Cache.{PolicyCache, compiled_by_name, primary_compiled}
use trustmodel_edge.Policy.Stale.{Age, infinite, micros}
use trustmodel_edge.Prelude.Int.{pos, negsuc}
use trustmodel_edge.Engine.Compiler.{CompiledPolicy}
use trustmodel_edge.Engine.Evaluator.{EvaluationResult}
use trustmodel_edge.Telemetry.Store.{AnyTelemetryStore, any_enqueue}
use trustmodel_edge.Telemetry.Payload.{AuditEvent}
use trustmodel_edge.Oauth.{AgentTokenClaims}
use trustmodel_edge.Routes.{Outcome, replied, http_error, raised}
use trustmodel_edge.Routes.Decide.{
  DecideRequest, Edge, Services, or_text, routed_name, audit_event, decide_cold, decide_stale,
  decide_fresh, decide_compiled, decide_routed, decide, name_not_found,
}
use trustmodel_edge.Routes.Bearer.{Moment, require_agent_token}
use trustmodel_edge.Routes.Decide.Answered.{is_stale, verdict_of}

module _ (services : Services) (cfg : Settings) where
  -- The event of an evaluated decision: what `audit_event` makes of some request.
  abbrev pub IsDecided : AuditEvent → Type 0
  IsDecided event =
      (cache : PolicyCache) × (at : Moment) × (body : DecideRequest) × (compiled : CompiledPolicy)
      × (agent_id : Option String) × (result : EvaluationResult) × (event
          ≡ audit_event services cfg cache at body compiled agent_id result)

  module _ (cache : PolicyCache) (at : Moment) (body : DecideRequest) where
    -- From the store `s`, the store `s'` is left as it is, or one such event is put into it.
    abbrev pub Queues : AnyTelemetryStore AuditEvent → AnyTelemetryStore AuditEvent → Type 0
    Queues s s' =
        (s' ≡ s)
        ⊎ ((event : AuditEvent) × IsDecided event
            × (s' ≡ (any_enqueue at.enqueue_fails at.enqueued_at event s).0))

    module _ (agent_id : Option String) (edge : Edge) where
      stale-Queues :
          (compiled : CompiledPolicy) (age : Age)
          → Queues edge.store (decide_stale services cfg cache at body compiled age edge).0.store
      unfolding decide_stale
      stale-Queues compiled infinite = inl refl
      stale-Queues compiled (micros (pos n)) = inl refl
      stale-Queues compiled (micros (negsuc n)) = inl refl

      fresh-store :
          (compiled : CompiledPolicy)
          → (decide_fresh services cfg cache at body compiled agent_id edge).0.store
            ≡ (any_enqueue at.enqueue_fails at.enqueued_at
                (audit_event services cfg cache at body compiled agent_id
                  (verdict_of services cfg cache at body compiled))
                edge.store).0
      unfolding decide_fresh
      fresh-store compiled = fresh-by _ refl
        where
          fresh-by :
              (b : Option Bool)
              → (any_enqueue at.enqueue_fails at.enqueued_at
                  (audit_event services cfg cache at body compiled agent_id
                    (verdict_of services cfg cache at body compiled))
                  edge.store).1
                ≡ b
              → (decide_fresh services cfg cache at body compiled agent_id edge).0.store
                ≡ (any_enqueue at.enqueue_fails at.enqueued_at
                    (audit_event services cfg cache at body compiled agent_id
                      (verdict_of services cfg cache at body compiled))
                    edge.store).0
          fresh-by none e = rw (e, decide_fresh)
          fresh-by (some b) e = rw (e, decide_fresh)

      fresh-Queues :
          (compiled : CompiledPolicy)
          → Queues edge.store
              (decide_fresh services cfg cache at body compiled agent_id edge).0.store
      unfolding decide_fresh
      fresh-Queues compiled = inr (
        audit_event services cfg cache at body compiled agent_id
            (verdict_of services cfg cache at body compiled),
        (cache, at, body, compiled, agent_id, _, refl),
        fresh-store compiled,
      )

      compiled-Queues :
          (compiled : CompiledPolicy)
          → Queues edge.store
              (decide_compiled services cfg cache at body compiled agent_id edge).0.store
      unfolding decide_compiled
      compiled-Queues compiled = elim (Bool-cases (is_stale services cfg cache at body)) [
        | inl e ↦ rw (e, decide_compiled) (stale-Queues compiled _)
        | inr e ↦ rw (e, decide_compiled) (fresh-Queues compiled)
      ]

      cold-Queues : Queues edge.store (decide_cold services cfg cache at body edge).0.store
      unfolding decide_cold
      cold-Queues = elim (Bool-cases (cfg.policy_fail_mode == "closed")) [
        | inl e ↦ rw (e, decide_cold) (inl refl)
        | inr e ↦ rw (e, decide_cold) (inl refl)
      ]

      named-Queues :
          (name : String) (o : Option CompiledPolicy)
          → routed_name cfg body ≡ some name
          → compiled_by_name cache name ≡ o
          → Queues edge.store (decide_routed services cfg cache at body agent_id edge).0.store
      unfolding decide_routed name_not_found
      named-Queues name none found e = rw (found, e, decide_routed) (inl refl)
      named-Queues name (some compiled) found e =
          rw (found, e, decide_routed) (compiled-Queues compiled)

      primary-Queues :
          (o : Option CompiledPolicy)
          → routed_name cfg body ≡ none
          → primary_compiled cache ≡ o
          → Queues edge.store (decide_routed services cfg cache at body agent_id edge).0.store
      unfolding decide_routed
      primary-Queues none found e = rw (found, e, decide_routed) cold-Queues
      primary-Queues (some compiled) found e =
          rw (found, e, decide_routed) (compiled-Queues compiled)

      routed-Queues :
          (o : Option String)
          → routed_name cfg body ≡ o
          → Queues edge.store (decide_routed services cfg cache at body agent_id edge).0.store
      routed-Queues none e = primary-Queues _ e refl
      routed-Queues (some name) e = named-Queues name _ e refl

    decided-Queues :
        (authorization : String) (edge : Edge) (o : Outcome AgentTokenClaims)
        → (require_agent_token services.crypto at authorization edge.app).1 ≡ o
        → Queues edge.store (decide services cfg cache at body authorization edge).0.store
    unfolding decide
    decided-Queues authorization edge (replied claims) e =
        rw (e, decide) (routed-Queues (or_text claims.agent_id body.agent_id) _ _ refl)
    decided-Queues authorization edge (http_error code detail) e = rw (e, decide) (inl refl)
    decided-Queues authorization edge raised e = rw (e, decide) (inl refl)

    -- Whatever the request and whatever comes of it, `decide` leaves the queue as it is, or puts into it
    -- one event that `audit_event` made.
    pub decide-Queues :
        (authorization : String) (edge : Edge)
        → Queues edge.store (decide services cfg cache at body authorization edge).0.store
    decide-Queues authorization edge = decided-Queues authorization edge _ refl
