-- ===== src/Routes/Decide/Answered.antt =====
-- What `decide` of src/edge/routes/decide.py answers, and what it leaves behind.
use Prim.Native.Nat.{ℕ}
use Prim.Native.String.{String}
use mathlib.Core.Path.{◌≡◌, refl, sym, ◌∙◌, subst}
use mathlib.Core.Logic.{◌⊎◌, inl, inr, ◌≢◌}
use mathlib.Core.Bool.{Bool, true, false}
use mathlib.Core.Option.{Option, none, some}
use native.Mathlib.Omega.{arith}
use text.Mathlib.TextEquality.{eq_iff}
use text.Mathlib.Text.{◌==◌}
use trustmodel_edge.Prelude.Tests.{Bool-cases}
use trustmodel_edge.Prelude.Int.{pos, negsuc}
use trustmodel_edge.Config.{Settings}
use trustmodel_edge.Policy.Cache.{PolicyCache, compiled_by_name, primary_compiled}
use trustmodel_edge.Policy.Stale.{Age, infinite, micros, status, fail_mode_verdict}
use trustmodel_edge.Engine.Compiler.{CompiledPolicy}
use trustmodel_edge.Engine.Evaluator.{EvaluationResult, evaluate}
use trustmodel_edge.Telemetry.Store.{AnyTelemetryStore, any_enqueue, durable, noop}
use trustmodel_edge.Telemetry.Payload.{AuditEvent}
use trustmodel_edge.Oauth.{AgentTokenClaims}
use trustmodel_edge.Routes.{Outcome, replied, replied-eq}
use trustmodel_edge.Routes.Decide.{
  DecideRequest, DecideResponse, Edge, Services, or_text, routed_name, evaluation_input,
  audit_event, response, decide_cold, decide_stale, decide_fresh, decide_compiled, decide_routed,
  decide,
}
use trustmodel_edge.Routes.Bearer.{Moment, require_agent_token}
use trustmodel_edge.Routes.Decide.Guarded.{IsAuthorized, decide-IsAuthorized}

-- SQLite did not raise, if the call returned.
enqueue-returned :
    {P : Type 0} (fails : Bool) (now : ℕ) (p : P) (s : AnyTelemetryStore P) (b : Bool)
    → (any_enqueue fails now p s).1 ≡ some b
    → (any_enqueue fails now p s).0 ≡ (any_enqueue false now p s).0
unfolding any_enqueue
enqueue-returned true now p (durable s) b h = absurd (cc)
enqueue-returned true now p (noop n) b h = refl
enqueue-returned false now p s b h = refl

-- The policy that a request is about: the one it names, when that counts, else the primary.
abbrev chosen : Settings → PolicyCache → DecideRequest → Option CompiledPolicy
chosen cfg cache body = elim (routed_name cfg body) [
  | some name ↦ compiled_by_name cache name
  | none ↦ primary_compiled cache
]

-- The verdict and the reason of a fail mode: it allows if it is "open", and denies otherwise.
abbrev pub FailsBy : String → String × String → Type 0
FailsBy mode v =
    (mode ≡ "open" → v ≡ ("allow", "edge.policy_stale.fail_open"))
    × (mode ≢ "open" → v ≡ ("deny", "edge.policy_stale.fail_closed"))

fail_mode_verdict-FailsBy : (mode : String) → FailsBy mode (fail_mode_verdict mode)
unfolding fail_mode_verdict
fail_mode_verdict-FailsBy mode =
    (λ e. ground (arith, eq_iff mode "open"), λ ne. ground (arith, eq_iff mode "open"))

module _ (services : Services) (cfg : Settings) (cache : PolicyCache) (at : Moment)
    (body : DecideRequest) where
  abbrev pub is_stale : Bool
  is_stale = (status at.now cache cfg.policy_stale_threshold_seconds).is_stale

  abbrev pub verdict_of : CompiledPolicy → EvaluationResult
  verdict_of compiled =
      evaluate services.py at.elapsed compiled (evaluation_input services cfg cache at body)

  -- The configured fail mode, marked as stale, and no audit event.
  abbrev IsFailMode : Edge → Edge → DecideResponse → Type 0
  IsFailMode edge after r =
      FailsBy cfg.policy_fail_mode (r.verdict, r.rule_id)
      × (r.stale ≡ true)
      × (after.store ≡ edge.store)

  -- The verdict of the evaluator, and its audit event handed to the queue.
  abbrev IsEvaluated : CompiledPolicy → Option String → Edge → Edge → DecideResponse → Type 0
  IsEvaluated compiled agent_id edge after r =
      (r ≡ response services cfg cache at body compiled (verdict_of compiled))
      × (after.store
          ≡ (any_enqueue false at.enqueued_at
              (audit_event services cfg cache at body compiled agent_id (verdict_of compiled))
              edge.store).0)

  abbrev pub Answered : Option String → Edge → Edge → DecideResponse → Type 0
  Answered agent_id edge after r =
      ((chosen cfg cache body ≡ none)
        × ((cfg.policy_fail_mode == "closed") ≡ false)
        × IsFailMode edge after r)
      ⊎ ((compiled : CompiledPolicy) × (chosen cfg cache body ≡ some compiled)
          × (((is_stale ≡ true) × IsFailMode edge after r)
              ⊎ ((is_stale ≡ false) × IsEvaluated compiled agent_id edge after r)))

  module _ (agent_id : Option String) (edge : Edge) (r : DecideResponse) where
    abbrev IsFailVerdict : DecideResponse → Type 0
    IsFailVerdict r' = FailsBy cfg.policy_fail_mode (r'.verdict, r'.rule_id) × (r'.stale ≡ true)

    cold-answers :
        (decide_cold services cfg cache at body edge).1 ≡ replied r
        → ((cfg.policy_fail_mode == "closed") ≡ false)
          × IsFailMode edge (decide_cold services cfg cache at body edge).0 r
    unfolding decide_cold
    cold-answers h = elim (Bool-cases (cfg.policy_fail_mode == "closed")) [
      | inl e ↦ absurd (cc (rw (e, decide_cold) at h))
      | inr e ↦
          let (verdict, marked) =
            subst IsFailVerdict (replied-eq (rw (e, decide_cold) at h))
              (fail_mode_verdict-FailsBy cfg.policy_fail_mode, refl) in
          (e, (verdict, marked, rw (e, decide_cold)))
    ]

    stale-answers :
        (compiled : CompiledPolicy) (age : Age)
        → (decide_stale services cfg cache at body compiled age edge).1 ≡ replied r
        → IsFailMode edge (decide_stale services cfg cache at body compiled age edge).0 r
    unfolding decide_stale
    stale-answers compiled infinite h = absurd (cc)
    stale-answers compiled (micros (pos n)) h =
        let (verdict, marked) =
          subst IsFailVerdict (replied-eq h)
            (fail_mode_verdict-FailsBy cfg.policy_fail_mode, refl) in
        (verdict, marked, refl)
    stale-answers compiled (micros (negsuc n)) h =
        let (verdict, marked) =
          subst IsFailVerdict (replied-eq h)
            (fail_mode_verdict-FailsBy cfg.policy_fail_mode, refl) in
        (verdict, marked, refl)

    module _ (compiled : CompiledPolicy) where
      abbrev queued : AnyTelemetryStore AuditEvent × Option Bool
      queued =
          any_enqueue at.enqueue_fails at.enqueued_at
            (audit_event services cfg cache at body compiled agent_id (verdict_of compiled))
            edge.store

      abbrev fresh : Edge × Outcome DecideResponse
      fresh = decide_fresh services cfg cache at body compiled agent_id edge

      fresh_by :
          (b : Option Bool)
          → queued.1 ≡ b
          → fresh.1 ≡ replied r
          → IsEvaluated compiled agent_id edge fresh.0 r
      unfolding decide_fresh
      fresh_by none e h = absurd (cc (rw (e, decide_fresh) at h))
      fresh_by (some b) e h = (
        sym (replied-eq (rw (e, decide_fresh) at h)),
        rw (e, decide_fresh) (enqueue-returned at.enqueue_fails at.enqueued_at _ edge.store b e),
      )

      compiled-answers :
          (decide_compiled services cfg cache at body compiled agent_id edge).1 ≡ replied r
          → ((is_stale ≡ true)
              × IsFailMode edge
                  (decide_compiled services cfg cache at body compiled agent_id edge).0
                  r)
            ⊎ ((is_stale ≡ false)
                × IsEvaluated compiled agent_id edge
                    (decide_compiled services cfg cache at body compiled agent_id edge).0
                    r)
      unfolding decide_compiled
      compiled-answers h = elim (Bool-cases is_stale) [
        | inl e ↦
            inl
              (e, rw (e, decide_compiled) (stale-answers compiled _ (rw (e, decide_compiled) at h)))
        | inr e ↦ inr (e, rw (e, decide_compiled) (fresh_by _ refl (rw (e, decide_compiled) at h)))
      ]

    abbrev routed : Edge × Outcome DecideResponse
    routed = decide_routed services cfg cache at body agent_id edge

    chosen-named :
        (name : String)
        → routed_name cfg body ≡ some name
        → chosen cfg cache body ≡ compiled_by_name cache name
    chosen-named name found = rw (found, chosen)

    chosen-primary : routed_name cfg body ≡ none → chosen cfg cache body ≡ primary_compiled cache
    chosen-primary found = rw (found, chosen)

    named-answers :
        (name : String) (o : Option CompiledPolicy)
        → routed_name cfg body ≡ some name
        → compiled_by_name cache name ≡ o
        → routed.1 ≡ replied r
        → Answered agent_id edge routed.0 r
    unfolding decide_routed
    named-answers name none found e h = absurd (cc (rw (found, e, decide_routed) at h))
    named-answers name (some compiled) found e h =
        rw (found, e, decide_routed)
          (inr (
            compiled,
            chosen-named name found ∙ e,
            compiled-answers compiled (rw (found, e, decide_routed) at h),
          ))

    primary-answers :
        (o : Option CompiledPolicy)
        → routed_name cfg body ≡ none
        → primary_compiled cache ≡ o
        → routed.1 ≡ replied r
        → Answered agent_id edge routed.0 r
    unfolding decide_routed
    primary-answers none found e h =
        rw (found, e, decide_routed)
          (let (open_mode, answered) = cold-answers (rw (found, e, decide_routed) at h) in
            inl (chosen-primary found ∙ e, open_mode, answered))
    primary-answers (some compiled) found e h =
        rw (found, e, decide_routed)
          (inr (
            compiled,
            chosen-primary found ∙ e,
            compiled-answers compiled (rw (found, e, decide_routed) at h),
          ))

    routed-answers :
        (o : Option String)
        → routed_name cfg body ≡ o
        → routed.1 ≡ replied r
        → Answered agent_id edge routed.0 r
    routed-answers none e h = primary-answers _ e refl h
    routed-answers (some name) e h = named-answers name _ e refl h

  -- Every verdict that `decide` answers with has one of three origins. With no policy at all and a
  -- fail mode that is not closed, or with a policy that is stale, it is the verdict of the fail mode,
  -- allow if that is "open" and else deny, marked as stale, and no audit event is queued. With a policy that is not stale it is the
  -- evaluator's result on the request under that policy, with the policy's id and version, and the
  -- audit event of the result has been handed to the queue. The policy is the one the request names,
  -- if it names one and that counts, and the primary otherwise.
  pub decide-Answered :
      (authorization : String) (edge : Edge) (r : DecideResponse)
      → (decide services cfg cache at body authorization edge).1 ≡ replied r
      → (claims : AgentTokenClaims) × IsAuthorized services.crypto at authorization edge.app claims
        × Answered
            (or_text claims.agent_id body.agent_id)
            edge
            (decide services cfg cache at body authorization edge).0
            r
  decide-Answered authorization edge r h =
      let (claims, allowed, same) =
        decide-IsAuthorized services cfg cache at body authorization edge r h in
      (
        claims,
        allowed,
        rw same (
            routed-answers (or_text claims.agent_id body.agent_id)
              (record edge {
                app = (require_agent_token services.crypto at authorization edge.app).0;
              })
              r _ refl (rw same at h)),
      )
