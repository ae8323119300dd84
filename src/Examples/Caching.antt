-- ===== src/Examples/Caching.antt =====
-- The policy cache, its files and the sync (src/edge/policy) with one policy.
use Prim.Native.String.{String}
use mathlib.Core.Path.{◌≡◌, refl}
use mathlib.Core.Logic.{◌≢◌}
use native.Mathlib.Omega.{arith}
use text.Mathlib.TextEquality.{eq_iff}
use mathlib.Core.Bool.{true, false}
use mathlib.Core.Option
use mathlib.Core.Option.{Option, none, some}
use mathlib.Core.List.{[], ◌∷◌}
use trustmodel_edge.Prelude.Lists.{All}
use trustmodel_edge.Value.{Value, str}
use trustmodel_edge.Policy.Bundle.{AuthorizedClient, EdgePolicy}
use trustmodel_edge.Policy.Disk.{Codec, Disk, Faults}
use trustmodel_edge.Policy.Cache.{PolicyCache, compile, compiled_by_name, replace_all, replaced}
use trustmodel_edge.Policy.Cache.Loading.{load_from_disk, loaded, read_policy}
use trustmodel_edge.Policy.Cache.Reads.{last_named, named, replace_all-reads}
use trustmodel_edge.Policy.Cache.Files.{ReadsBack}
use trustmodel_edge.Policy.Cache.Restart.{replace_all-restart}
use trustmodel_edge.Policy.Client.{response, transport_error}
use trustmodel_edge.Policy.Sync.{Round}
use trustmodel_edge.Policy.Sync.Kept.{Kept}
use trustmodel_edge.Examples.Evaluation.{py, rules}

abbrev pub agent : AuthorizedClient
agent = record {
  client_id = "agent-1";
  client_name = "Agent";
  client_secret_hash = "pbkdf2_sha256$5$salt$s3cret";
  allowed_scopes = "govern:enforce" ∷ "read" ∷ [];
  agent_id = some "a1";
}

abbrev pub main : EdgePolicy
main = record {
  id = "p1";
  tenant_id = "acme";
  name = "main";
  version = "1";
  bundle = record {
    name = "main";
    version = "1";
    description = "";
    rules = rules;
    framework_tags = [];
  };
  is_active = true;
  is_primary = true;
  created_at = 0;
  authorized_clients = agent ∷ [];
}

abbrev unnamed : EdgePolicy
unnamed = record main { name = ""; bundle = record main.bundle { name = "" } }

-- The texts of a directory: a JSON value, or the text of a policy.
pub data Stored : Type 0 where
  value : Value → Stored
  policy : EdgePolicy → Stored

abbrev decode : Stored → Option Value
decode (value v) = some v
decode (policy p) = some (str "main")

-- The value of the one policy is a text.
abbrev pub codec : Codec
codec = record {
  Text = Stored;
  loads = decode;
  dumps = value;
  validate = λ _. some main;
  model_dump_json = policy;
}

abbrev pub nothing_fails : Faults
nothing_fails = record {
  mtime = 7;
  mkdir_state = false;
  mkdir_policies = false;
  write_manifest = false;
  write_legacy = false;
  write_policy = λ _. false;
  unlink = λ _. false;
}

abbrev pub no_files : Disk Stored
no_files = record { manifest = none; legacy = none; policies = [] }

abbrev legacy_only : Disk Stored
legacy_only = record {
  manifest = none;
  legacy = some (record { text = policy main; mtime = 4 });
  policies = [];
}

legacy_loads : load_from_disk codec py legacy_only ≡ loaded (replaced py 4 main)
unfolding load_from_disk replaced
legacy_loads = refl

replace_all-reads_example :
    ((n : String)
      → compiled_by_name
          (replace_all codec py nothing_fails 9 no_files (main ∷ []) (some "main")).0
          n
        ≡ Option.map (compile py) (last_named n (main ∷ [])))
    × ((replace_all codec py nothing_fails 9 no_files (main ∷ []) (some "main")).0.primary_name
        ≡ named (main ∷ []) (some "main"))
replace_all-reads_example =
    replace_all-reads codec py nothing_fails 9 no_files (main ∷ []) (some "main")

main-reads_back : All (ReadsBack codec nothing_fails py) (main ∷ [])
unfolding read_policy
main-reads_back = (refl, tt)

main_is_named : ◌≢◌ {A = String} "main" ""
main_is_named = ground (arith, eq_iff "main" "")

-- A policy without a name is written and at once unlinked as an orphan.
unnamed_unlinked :
    (replace_all codec py nothing_fails 9 no_files (unnamed ∷ []) none).1.policies ≡ []
unfolding replace_all
unnamed_unlinked = refl

all_written : (replace_all codec py nothing_fails 9 legacy_only (main ∷ []) (some "main")).2 ≡ true
unfolding replace_all
all_written = refl

replace_all-restart_example :
    (c : PolicyCache) × (load_from_disk codec py
        (replace_all codec py nothing_fails 9 legacy_only (main ∷ []) (some "main")).1
      ≡ loaded c)
    × ((n : String)
        → compiled_by_name c n
          ≡ compiled_by_name
              (replace_all codec py nothing_fails 9 legacy_only (main ∷ []) (some "main")).0
              n)
    × (c.primary_name
        ≡ (replace_all codec py nothing_fails 9 legacy_only
            (main ∷ [])
            (some "main")).0.primary_name)
replace_all-restart_example =
    replace_all-restart codec py nothing_fails 9 legacy_only main [] (some "main") main-reads_back
      (main_is_named, tt) (λ v. refl) all_written

abbrev pub validate_client : Value → Option AuthorizedClient
validate_client v = some agent

abbrev pub good_round : Round
good_round = record {
  plural = response 404 "" none;
  singular = response 200 "" (some (str "main"));
  now = 9;
  faults = nothing_fails;
}

abbrev pub bad_round : Round
bad_round = record {
  plural = transport_error "reset";
  singular = response 500 "" none;
  now = 12;
  faults = nothing_fails;
}
