-- ===== src/Telemetry/Payload.antt =====
-- src/edge/telemetry/payload.py. The identifier uuid4() gives, the clock's text, uuid5 and HMAC are
-- arguments.
use Prim.Native.Nat.{ℕ}
use Prim.Native.String.{String}
use mathlib.Core.Bool.{◌||◌}
use mathlib.Core.Option.{Option, none, some}
use mathlib.Core.List.{List}
use text.Mathlib.Text.{◌==◌}
use trustmodel_edge.Prelude.Tests.{if◌then◌else◌, or_else}
use trustmodel_edge.Prelude.Dict.{Dict}
use trustmodel_edge.Value.{Value}

-- The dictionary `evidence`.
pub record Evidence : Type 0 where
  pub framework_tags : List String
  pub redactions : List String
  pub rule_id : String
  pub latency_ms : ℕ

pub record AuditEvent : Type 0 where
  pub event_id : String
  pub customer_id : String
  pub agent_id : String
  pub subject_id : String
  pub policy_id : String
  pub decision : String
  pub reason : String
  pub action_type : String
  pub action_payload : Dict Value
  pub evidence : Evidence
  pub occurred_at : String

-- `hmac` takes the key and the subject.
unfoldable pub hash_subject : (String → String → String) → Option String → String → String
hash_subject hmac none key = ""
hash_subject hmac (some subject) key = if subject == "" || key == "" then "" else hmac key subject

-- `uuid5` is the identifier of a tenant in the fixed namespace.
unfoldable pub build_audit_event :
    (String → String)
    → String
    → String
    → String
    → Option String
    → Option String
    → String
    → String
    → String
    → String
    → String
    → Dict Value
    → List String
    → List String
    → ℕ
    → AuditEvent
build_audit_event uuid5 event_id occurred_at tenant_id agent_id subject policy_id verdict rule_id
      reason tool args redactions framework_tags latency_ms =
    record {
      event_id = event_id;
      customer_id = uuid5 tenant_id;
      agent_id = or_else agent_id "";
      subject_id = or_else subject "";
      policy_id = policy_id;
      decision = verdict;
      reason = reason;
      action_type = tool;
      action_payload = args;
      evidence = record {
        framework_tags = framework_tags;
        redactions = redactions;
        rule_id = rule_id;
        latency_ms = latency_ms;
      };
      occurred_at = occurred_at;
    }
