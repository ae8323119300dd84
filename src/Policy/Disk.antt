-- ===== src/Policy/Disk.antt =====
-- The part of src/edge/policy/cache.py that is on disk: the state directory with `manifest.json`,
-- `policies/<name>.json` and the legacy `policy.json`, and the two functions that write it. A name is
-- taken for a file's name as it is. A write goes to a temporary file that nothing reads and is then
-- renamed, so it happens as a whole or raises.
use Prim.Native.Nat.{ℕ}
use Prim.Native.String.{String, compare}
use mathlib.Core.Bool.{Bool, true, false, ◌||◌}
use mathlib.Core.Option.{Option, none, some}
use mathlib.Core.List.{List, [], ◌∷◌, map}
use text.Mathlib.Text.{is_le}
use text.Mathlib.Text.{◌==◌}
use trustmodel_edge.Prelude.Tests.{if◌then◌else◌}
use trustmodel_edge.Prelude.Lists.{filter}
use trustmodel_edge.Prelude.Sort.{sort_by}
use trustmodel_edge.Prelude.Dict.{Dict, insert}
use trustmodel_edge.Value.{Value, null, str, list, dict, Items, no_items, item, no_entries, entry}
use trustmodel_edge.Policy.Bundle.{EdgePolicy}
use trustmodel_edge.Engine.Compiler.{contains}

-- json and pydantic, as the program calls them; `none` is the exception that the program catches.
pub record Codec : Type 1 where
  pub Text : Type 0
  pub loads : Text → Option Value
  pub dumps : Value → Text
  pub validate : Value → Option EdgePolicy
  pub model_dump_json : EdgePolicy → Text

pub record File (Text : Type 0) : Type 0 where
  pub text : Text
  pub mtime : ℕ

pub record Disk (Text : Type 0) : Type 0 where
  pub manifest : Option (File Text)
  pub legacy : Option (File Text)
  pub policies : Dict (File Text)

-- What the file system refuses, and the time that it gives to a file that is written.
pub record Faults : Type 0 where
  pub mtime : ℕ
  pub mkdir_state : Bool
  pub mkdir_policies : Bool
  pub write_manifest : Bool
  pub write_legacy : Bool
  pub write_policy : String → Bool
  pub unlink : String → Bool

abbrev pub policy_names : List EdgePolicy → List String
policy_names = map (λ p. p.bundle.name)

-- `sorted` on texts
unfoldable pub sorted_names : List String → List String
unfolding sort_by
sorted_names names = sort_by (λ s t. is_le (compare s t)) names

abbrev pub to_items : List String → Items
to_items [] = no_items
to_items (s ∷ ss) = item (str s) (to_items ss)

abbrev pub or_none : Option String → Value
or_none none = null
or_none (some s) = str s

unfoldable pub manifest_value : Option String → List EdgePolicy → Value
unfolding sorted_names
manifest_value primary_name policies = dict (
    entry "primary_name" (or_none primary_name)
      (entry "names" (list (to_items (sorted_names (policy_names policies)))) no_entries))

-- `stem` of the file `{name}.json`. The file of the empty name is ".json", whose stem is ".json".
unfoldable pub stem_of : String → String
stem_of name = if name == "" then ".json" else name

module _ (codec : Codec) (faults : Faults) where
  abbrev Text : Type 0
  Text = codec.Text

  -- The directory, and whether the call returned (else it raised).
  unfoldable pub persist_legacy_to_disk : Disk Text → EdgePolicy → Disk Text × Bool
  persist_legacy_to_disk disk p =
      if faults.mkdir_state || faults.write_legacy then (disk, false) else (
        record disk {
          legacy = some (record { text = codec.model_dump_json p; mtime = faults.mtime });
        },
        true,
      )

  -- The loop that writes one file for each policy.
  unfoldable pub write_policies : Dict (File Text) → List EdgePolicy → Dict (File Text) × Bool
  unfolding insert
  write_policies files [] = (files, true)
  write_policies files (p ∷ ps) =
      let written : Dict (File Text) =
        insert p.bundle.name (record { text = codec.model_dump_json p; mtime = faults.mtime })
          files in
      let rest = write_policies written ps in
      if faults.write_policy p.bundle.name then (files, false) else rest

  -- The loop that unlinks the files whose stem is no current name; an `OSError` is
  -- logged and the file stays.
  unfoldable pub drop_orphans : List String → Dict (File Text) → Dict (File Text)
  unfolding contains stem_of
  drop_orphans current files =
      filter (λ e. contains (stem_of e.0) current || faults.unlink e.0) files

  -- The last part of the function, once every policy is written.
  unfoldable finish_manifest :
      Disk Text → Option String → List EdgePolicy → Dict (File Text) → Disk Text × Bool
  unfolding manifest_value drop_orphans
  finish_manifest disk primary_name policies files =
      let kept = drop_orphans (policy_names policies) files in
      if faults.write_manifest then (record disk { policies = kept }, false) else (
        record {
          manifest = some (record {
            text = codec.dumps (manifest_value primary_name policies);
            mtime = faults.mtime;
          });
          legacy = disk.legacy;
          policies = kept;
        },
        true,
      )

  unfoldable pub persist_manifest_to_disk :
      Disk Text → Option String → List EdgePolicy → Disk Text × Bool
  unfolding write_policies finish_manifest
  persist_manifest_to_disk disk primary_name policies =
      if faults.mkdir_state || faults.mkdir_policies
      then (disk, false)
      else (let (files, returned) = write_policies disk.policies policies in
          if returned
          then finish_manifest disk primary_name policies files
          else (record disk { policies = files }, false))
