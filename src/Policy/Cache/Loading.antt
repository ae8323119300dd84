-- ===== src/Policy/Cache/Loading.antt =====
-- `load_from_disk` of src/edge/policy/cache.py.
use Prim.Native.Nat.{ℕ, max}
use Prim.Native.String.{String}
use mathlib.Core.Option.{Option, none, some}
use mathlib.Core.List.{List, [], ◌∷◌}
use trustmodel_edge.Prelude.Tests.{if◌then◌else◌}
use trustmodel_edge.Prelude.Lists.{is_empty}
use trustmodel_edge.Prelude.Dict.{Dict, lookup, insert}
use trustmodel_edge.Value.{
  Value, null, bool, int, str, list, dict, Items, no_items, item, Entries, no_entries, entry,
  PyText, str_of, get_field,
}
use trustmodel_edge.Policy.Bundle.{EdgePolicy}
use trustmodel_edge.Policy.Disk.{Codec, File, Disk}
use trustmodel_edge.Policy.Cache.{CacheSnapshot, PolicyCache, make_snapshot, replaced, keep_primary}

-- `loaded` is True; `not_loaded` is False, with the cache as it was; `crashed` is an exception that
-- is not caught.
pub data Load : Type 0 where
  loaded : PolicyCache → Load
  not_loaded : Load
  crashed : Load

abbrev pub items_list : Items → List Value
items_list no_items = []
items_list (item v vs) = v ∷ items_list vs

abbrev field_names : Entries → List Value
field_names no_entries = []
field_names (entry k _ fs) = str k ∷ field_names fs

abbrev characters : String → List Value
characters String.[] = []
characters (String.◌∷◌ c s) = str (String.◌∷◌ c "") ∷ characters s

-- `list(v)`; `none` is a `TypeError`, which is caught.
abbrev pub list_of : Value → Option (List Value)
list_of (list xs) = some (items_list xs)
list_of (str s) = some (characters s)
list_of (dict fs) = some (field_names fs)
list_of null = none
list_of (bool _) = none
list_of (int _) = none

-- `manifest.get("names", [])`
abbrev pub names_or_empty : Option Value → Value
names_or_empty none = list no_items
names_or_empty (some v) = v

module _ (codec : Codec) (py : PyText) where
  abbrev Text : Type 0
  Text = codec.Text

  -- The file of a policy, read, parsed and validated.
  unfoldable pub read_policy : File Text → Option EdgePolicy
  read_policy file = elim (codec.loads file.text) [ none ↦ none | some raw ↦ codec.validate raw ]

  -- A file that is broken is skipped.
  unfoldable pub add_read : Dict CacheSnapshot → ℕ → Option EdgePolicy → Dict CacheSnapshot
  unfolding make_snapshot insert
  add_read snaps mtime none = snaps
  add_read snaps mtime (some p) = insert p.bundle.name (make_snapshot py mtime p) snaps

  -- One round of the loop over the names: a file that is missing is skipped.
  unfoldable pub load_policy : Disk Text → Dict CacheSnapshot → String → Dict CacheSnapshot
  unfolding read_policy add_read lookup
  load_policy disk snaps name = elim (lookup name disk.policies) [
    | none ↦ snaps
    | some file ↦ add_read snaps file.mtime (read_policy file)
  ]

  unfoldable pub load_policies : Disk Text → Dict CacheSnapshot → List Value → Dict CacheSnapshot
  unfolding load_policy
  load_policies disk snaps [] = snaps
  load_policies disk snaps (name ∷ names) =
      load_policies disk (load_policy disk snaps (str_of py name)) names

  pub newest : ℕ → Dict CacheSnapshot → ℕ
  newest t [] = t
  newest t ((_, s) ∷ snaps) = newest (max t s.refreshed_at) snaps

  abbrev load_with : Dict CacheSnapshot → Option String → Load
  load_with snaps primary_name = loaded (record {
    snapshots = snaps;
    primary_name = keep_primary snaps primary_name;
    last_success_at = some (newest 0 snaps);
  })

  -- `primary_name not in snapshots` raises for a list or an object; a number or a Boolean is never a
  -- key.
  unfoldable pub finish_load : Dict CacheSnapshot → Option Value → Load
  unfolding newest keep_primary
  finish_load snaps none = load_with snaps none
  finish_load snaps (some (str name)) = load_with snaps (some name)
  finish_load snaps (some (list _)) = crashed
  finish_load snaps (some (dict _)) = crashed
  finish_load snaps (some _) = load_with snaps none

  -- What follows the reading of the manifest.
  unfoldable pub load_names : Disk Text → Option Value → List Value → Load
  unfolding load_policies finish_load
  load_names disk primary_name names =
      let snaps = load_policies disk [] names in
      if is_empty snaps then not_loaded else finish_load snaps primary_name

  -- `manifest.get` on what is no object is an `AttributeError`, which is not caught.
  unfoldable pub load_manifest_value : Disk Text → Value → Load
  unfolding load_names get_field
  load_manifest_value disk (dict fs) = elim (list_of (names_or_empty (get_field "names" fs))) [
    | none ↦ not_loaded
    | some names ↦ load_names disk (get_field "primary_name" fs) names
  ]
  load_manifest_value disk _ = crashed

  unfoldable pub load_manifest : Disk Text → Load
  unfolding load_manifest_value
  load_manifest disk = elim disk.manifest [
    | none ↦ not_loaded
    | some file ↦ elim (codec.loads file.text) [
      | none ↦ not_loaded
      | some manifest ↦ load_manifest_value disk manifest
    ]
  ]

  unfoldable pub load_legacy : Disk Text → Load
  unfolding read_policy replaced
  load_legacy disk = elim disk.legacy [
    | none ↦ not_loaded
    | some file ↦ elim (read_policy file) [
      | none ↦ not_loaded
      | some p ↦ loaded (replaced py file.mtime p)
    ]
  ]

  -- `if self._load_manifest(...): return True`, and else the second load
  unfoldable pub or_load : Load → Load → Load
  or_load (loaded c) second = loaded c
  or_load not_loaded second = second
  or_load crashed second = crashed

  unfoldable pub load_from_disk : Disk Text → Load
  unfolding load_manifest load_legacy or_load
  load_from_disk disk = or_load (load_manifest disk) (load_legacy disk)
