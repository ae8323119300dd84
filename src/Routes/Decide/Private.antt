-- ===== src/Routes/Decide/Private.antt =====
-- What `decide` of src/edge/routes/decide.py lets out of the pod through the telemetry queue.
use Prim.Native.String.{String}
use mathlib.Core.Path.{◌≡◌, refl, sym, subst}
use mathlib.Core.Logic.{◌⊎◌, inl, inr}
use mathlib.Core.Bool.{Bool, true, false, ◌||◌}
use mathlib.Core.Option.{Option, none, some}
use mathlib.Core.List.{[]}
use text.Mathlib.Text.{◌==◌}
use trustmodel_edge.Prelude.Tests.{Bool-cases}
use trustmodel_edge.Config.{Settings}
use trustmodel_edge.Policy.Cache.{PolicyCache}
use trustmodel_edge.Engine.Compiler.{CompiledPolicy}
use trustmodel_edge.Engine.Evaluator.{EvaluationResult}
use trustmodel_edge.Telemetry.Store.{AnyTelemetryStore}
use trustmodel_edge.Telemetry.Store.Holding.{Holds, any_enqueue-Holds}
use trustmodel_edge.Telemetry.Payload.{AuditEvent, hash_subject}
use trustmodel_edge.Routes.Decide.{DecideRequest, Edge, Services, audit_event, decide}
use trustmodel_edge.Routes.Bearer.{Moment}
use trustmodel_edge.Routes.Decide.Queued.{IsDecided, Queues, decide-Queues}

module _ (services : Services) (cfg : Settings) where
  -- Nothing, or the hash of a subject under the key; without a key nothing.
  abbrev IsPseudonym : String → Type 0
  IsPseudonym id =
      (id ≡ "")
      ⊎ (((cfg.telemetry_subject_hash_key == "") ≡ false)
          × (subject : String) × (id ≡ services.hmac cfg.telemetry_subject_hash_key subject))

  -- No arguments of the action, and no subject but as a pseudonym.
  abbrev pub IsPrivate : AuditEvent → Type 0
  IsPrivate event = (event.action_payload ≡ []) × IsPseudonym event.subject_id

  abbrev pub IsSealed : Edge → Type 0
  IsSealed edge = Holds IsPrivate edge.store

  or-false : (a b : Bool) → (a || b) ≡ false → b ≡ false
  or-false true b h = absurd (cc)
  or-false false b h = h

  hash_subject-IsPseudonym :
      (subject : Option String)
      → IsPseudonym (hash_subject services.hmac subject cfg.telemetry_subject_hash_key)
  unfolding hash_subject
  hash_subject-IsPseudonym none = inl refl
  hash_subject-IsPseudonym (some s) =
      elim (Bool-cases (s == "" || cfg.telemetry_subject_hash_key == "")) [
        | inl e ↦ inl (rw (e, hash_subject))
        | inr e ↦ inr (or-false (s == "") _ e, s, rw (e, hash_subject))
      ]

  module _ (omits : cfg.telemetry_omit_payload ≡ true) where
    audit_event-IsPrivate :
        (cache : PolicyCache) (at : Moment) (body : DecideRequest) (compiled : CompiledPolicy)
        (agent_id : Option String) (result : EvaluationResult)
        → IsPrivate (audit_event services cfg cache at body compiled agent_id result)
    unfolding audit_event hash_subject
    audit_event-IsPrivate cache at body compiled agent_id result =
        rw (omits, audit_event) (refl, hash_subject-IsPseudonym body.subject)

    pub IsDecided-IsPrivate : (event : AuditEvent) → IsDecided services cfg event → IsPrivate event
    IsDecided-IsPrivate event (cache, at, body, compiled, agent_id, result, e) =
        subst IsPrivate (sym e) (audit_event-IsPrivate cache at body compiled agent_id result)

  module _ (cache : PolicyCache) (at : Moment) (body : DecideRequest)
      (omits : cfg.telemetry_omit_payload ≡ true) where
    queued-IsSealed :
        (edge : Edge) (store : AnyTelemetryStore AuditEvent)
        → Queues services cfg cache at body edge.store store
        → IsSealed edge
        → Holds IsPrivate store
    queued-IsSealed edge store (inl same) before = subst (Holds IsPrivate) (sym same) before
    queued-IsSealed edge store (inr (event, decided, queued)) before =
        subst (Holds IsPrivate) (sym queued) (
          any_enqueue-Holds IsPrivate at.enqueue_fails at.enqueued_at event edge.store
            (IsDecided-IsPrivate omits event decided) before)

    -- With `telemetry_omit_payload`, whatever the request and whatever comes of it, `decide` queues no
    -- event with arguments of the action, and none with a subject but under the keyed hash; without a
    -- hash key the subject is empty. (If the queue held no others before, it holds none after.)
    pub decide-IsSealed :
        (authorization : String) (edge : Edge)
        → IsSealed edge
        → IsSealed (decide services cfg cache at body authorization edge).0
    decide-IsSealed authorization edge before =
        queued-IsSealed edge _ (decide-Queues services cfg cache at body authorization edge) before
