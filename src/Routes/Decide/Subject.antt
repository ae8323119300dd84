-- ===== src/Routes/Decide/Subject.antt =====
-- The subject in the audit event of src/edge/routes/decide.py, and what `subject_id_mode` of
-- src/edge/config.py says of it.
use Prim.Native.String.{String}
use mathlib.Core.Path.{◌≡◌, refl}
use mathlib.Core.Logic.{inl, inr}
use mathlib.Core.Bool.{Bool, true, false, ◌||◌}
use mathlib.Core.Option.{Option, none, some}
use text.Mathlib.Text.{◌==◌}
use trustmodel_edge.Prelude.Tests.{Bool-cases, if◌then◌else◌, or_else}
use trustmodel_edge.Config.{Settings, subject_id_mode}
use trustmodel_edge.Policy.Cache.{PolicyCache}
use trustmodel_edge.Engine.Compiler.{CompiledPolicy}
use trustmodel_edge.Engine.Evaluator.{EvaluationResult}
use trustmodel_edge.Telemetry.Payload.{hash_subject}
use trustmodel_edge.Routes.Decide.{DecideRequest, Services, audit_event}
use trustmodel_edge.Routes.Bearer.{Moment}

or_true : (a : Bool) → (a || true) ≡ true
or_true true = refl
or_true false = refl

hash_subject-empty :
    (hmac : String → String → String) (subject : Option String) (key : String)
    → (key == "") ≡ true
    → hash_subject hmac subject key ≡ ""
unfolding hash_subject
hash_subject-empty hmac none key e = refl
hash_subject-empty hmac (some s) key e = rw (e, or_true (s == ""), hash_subject)

module _ (services : Services) (cfg : Settings) (cache : PolicyCache) (at : Moment)
    (body : DecideRequest) where
  -- The subject that a mode lets out.
  abbrev pub subject_under : String → String
  subject_under mode =
      if mode == "raw"
      then or_else body.subject ""
      else if mode == "hashed"
      then hash_subject services.hmac body.subject cfg.telemetry_subject_hash_key
      else ""

  -- The audit event of a decision carries the subject as `subject_id_mode` says: as it is in the mode
  -- raw, its keyed hash in the mode hashed, and nothing in the mode withheld.
  pub audit_event-subject_id_mode :
      (compiled : CompiledPolicy) (agent_id : Option String) (result : EvaluationResult)
      → (audit_event services cfg cache at body compiled agent_id result).subject_id
        ≡ subject_under (subject_id_mode cfg)
  unfolding audit_event subject_id_mode
  audit_event-subject_id_mode compiled agent_id result =
      elim (Bool-cases cfg.telemetry_omit_payload) [
        | inr raw ↦ rw (raw, audit_event, subject_id_mode)
        | inl omits ↦ elim (Bool-cases (cfg.telemetry_subject_hash_key == "")) [
          | inl unset ↦
              rw (omits, unset, audit_event, subject_id_mode)
                (hash_subject-empty services.hmac body.subject cfg.telemetry_subject_hash_key unset)
          | inr set ↦ rw (omits, set, audit_event, subject_id_mode)
        ]
      ]
