-- ===== src/Policy/Cache.antt =====
-- src/edge/policy/cache.py: the process-wide map of compiled policies. A writer swaps the map, the
-- primary's name and the time in one step of the event loop, so no reader sees half of it.
pub mod Loading
pub mod Validity
pub mod Restored
pub mod Named
pub mod Reads
pub mod Files
pub mod Restart
use Prim.Native.Nat.{ℕ}
use Prim.Native.String.{String}
use mathlib.Core.Bool.{Bool, true, false}
use mathlib.Core.Option
use mathlib.Core.Option.{Option, none, some}
use mathlib.Core.List.{List, [], ◌∷◌}
use trustmodel_edge.Prelude.Tests.{if◌then◌else◌}
use trustmodel_edge.Prelude.Lists.{is_empty}
use trustmodel_edge.Prelude.Dict.{Dict, lookup, insert, has_key, keys}
use trustmodel_edge.Value.{PyText}
use trustmodel_edge.Policy.Bundle.{AuthorizedClient, EdgePolicy}
use trustmodel_edge.Policy.Disk.{
  Codec, Disk, Faults, sorted_names, persist_legacy_to_disk, persist_manifest_to_disk,
}
use trustmodel_edge.Engine.Compiler.{CompiledPolicy, compile_policy}

pub record CacheSnapshot : Type 0 where
  pub edge_policy : EdgePolicy
  pub compiled : CompiledPolicy
  pub refreshed_at : ℕ

pub record PolicyCache : Type 0 where
  pub snapshots : Dict CacheSnapshot
  pub primary_name : Option String
  pub last_success_at : Option ℕ

-- `PolicyCache()`
abbrev pub empty_cache : PolicyCache
empty_cache = record { snapshots = []; primary_name = none; last_success_at = none }

unfoldable pub is_warm : PolicyCache → Bool
is_warm c = if is_empty c.snapshots then false else true

unfoldable pub snapshot_by_name : PolicyCache → String → Option CacheSnapshot
unfolding lookup
snapshot_by_name c name = lookup name c.snapshots

unfoldable pub compiled_by_name : PolicyCache → String → Option CompiledPolicy
unfolding snapshot_by_name
compiled_by_name c name = Option.map (λ s. s.compiled) (snapshot_by_name c name)

unfoldable pub primary_compiled : PolicyCache → Option CompiledPolicy
unfolding compiled_by_name
primary_compiled c = elim c.primary_name [ none ↦ none | some name ↦ compiled_by_name c name ]

unfoldable pub all_names : PolicyCache → List String
unfolding sorted_names
all_names c = sorted_names (keys c.snapshots)

unfoldable snapshot : PolicyCache → Option CacheSnapshot
unfolding snapshot_by_name
snapshot c = elim c.primary_name [ none ↦ none | some name ↦ snapshot_by_name c name ]

unfoldable pub authorized_clients : PolicyCache → List AuthorizedClient
unfolding snapshot
authorized_clients c = elim (snapshot c) [ none ↦ [] | some s ↦ s.edge_policy.authorized_clients ]

-- `_compile`
pub compile : PyText → EdgePolicy → CompiledPolicy
unfolding compile_policy
compile py p =
    compile_policy py p.id p.bundle.name p.bundle.version p.bundle.rules p.bundle.framework_tags

unfoldable pub make_snapshot : PyText → ℕ → EdgePolicy → CacheSnapshot
unfolding compile
make_snapshot py time p = record { edge_policy = p; compiled = compile py p; refreshed_at = time }

-- The loop that builds the new map: a later policy of one name takes the place of an earlier one.
pub add_snapshots : PyText → ℕ → Dict CacheSnapshot → List EdgePolicy → Dict CacheSnapshot
unfolding make_snapshot insert
add_snapshots py time snaps [] = snaps
add_snapshots py time snaps (p ∷ ps) =
    add_snapshots py time (insert p.bundle.name (make_snapshot py time p) snaps) ps

-- A primary that is not among the names is dropped.
pub keep_primary : Dict CacheSnapshot → Option String → Option String
unfolding lookup
keep_primary snaps none = none
keep_primary snaps (some name) = if has_key name snaps then some name else none

-- The in-memory part of `replace`.
unfoldable pub replaced : PyText → ℕ → EdgePolicy → PolicyCache
unfolding make_snapshot
replaced py now p = record {
  snapshots = (p.bundle.name, make_snapshot py now p) ∷ [];
  primary_name = some p.bundle.name;
  last_success_at = some now;
}

-- The in-memory part of `replace_all`.
unfoldable pub replaced_all : PyText → ℕ → List EdgePolicy → Option String → PolicyCache
unfolding add_snapshots keep_primary
replaced_all py now policies primary_name =
    let snaps = add_snapshots py now [] policies in
    record {
      snapshots = snaps;
      primary_name = keep_primary snaps primary_name;
      last_success_at = some now;
    }

module _ (codec : Codec) (py : PyText) (faults : Faults) (now : ℕ) where
  -- The new cache, the directory, and whether the call returned (else it raised, after the swap).
  unfoldable pub replace : Disk codec.Text → EdgePolicy → PolicyCache × Disk codec.Text × Bool
  unfolding replaced persist_legacy_to_disk
  replace disk p =
      let (disk', returned) = persist_legacy_to_disk codec faults disk p in
      (replaced py now p, disk', returned)

  unfoldable pub replace_all :
      Disk codec.Text → List EdgePolicy → Option String → PolicyCache × Disk codec.Text × Bool
  unfolding replaced_all persist_manifest_to_disk
  replace_all disk policies primary_name =
      let cache = replaced_all py now policies primary_name in
      let (disk', returned) =
        persist_manifest_to_disk codec faults disk cache.primary_name policies in
      (cache, disk', returned)
