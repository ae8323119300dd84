-- ===== src/Policy/Cache/Reads.antt =====
-- What a cache of src/edge/policy/cache.py finds after `replace_all`.
use Prim.Native.Nat.{ℕ}
use Prim.Native.String.{String}
use mathlib.Core.Path.{◌≡◌, refl}
use mathlib.Core.Option
use mathlib.Core.Option.{Option, none, some}
use mathlib.Core.List.{List, [], ◌∷◌}
use native.Mathlib.Omega.{arith}
use text.Mathlib.Text.{◌==◌}
use trustmodel_edge.Prelude.Tests.{if◌then◌else◌}
use trustmodel_edge.Prelude.Dict.{Dict, lookup, insert, lookup-insert}
use trustmodel_edge.Value.{PyText}
use trustmodel_edge.Policy.Bundle.{EdgePolicy}
use trustmodel_edge.Policy.Disk.{Codec, Disk, Faults}
use trustmodel_edge.Policy.Cache.{
  CacheSnapshot, PolicyCache, compile, make_snapshot, compiled_by_name, add_snapshots, keep_primary,
  replace_all,
}

-- The last policy of the list with the name.
abbrev pub last_named : String → List EdgePolicy → Option EdgePolicy
last_named n [] = none
last_named n (p ∷ ps) = elim (last_named n ps) [
  | some q ↦ some q
  | none ↦ if p.bundle.name == n then some p else none
]

abbrev pub or_first {ℓ} : {A : Type ℓ} → Option A → Option A → Option A
or_first none o = o
or_first (some a) o = some a

lookup-add_snapshots :
    (py : PyText) (time : ℕ) (snaps : Dict CacheSnapshot) (ps : List EdgePolicy) (n : String)
    → lookup n (add_snapshots py time snaps ps)
      ≡ or_first (Option.map (make_snapshot py time) (last_named n ps)) (lookup n snaps)
unfolding add_snapshots
lookup-add_snapshots py time snaps [] n = refl
lookup-add_snapshots py time snaps (p ∷ ps) n = ground (
  arith,
  lookup-add_snapshots py time (insert p.bundle.name (make_snapshot py time p) snaps) ps n,
  lookup-insert p.bundle.name n (make_snapshot py time p) snaps,
)

-- `if primary_name is not None and primary_name not in new_snapshots: primary_name = None`
abbrev pub named : List EdgePolicy → Option String → Option String
named ps none = none
named ps (some n) = elim (last_named n ps) [ none ↦ none | some _ ↦ some n ]

pub keep_primary-named :
    (py : PyText) (time : ℕ) (ps : List EdgePolicy) (primary_name : Option String)
    → keep_primary (add_snapshots py time [] ps) primary_name ≡ named ps primary_name
unfolding keep_primary
keep_primary-named py time ps none = refl
keep_primary-named py time ps (some n) = ground (arith, lookup-add_snapshots py time [] ps n)

module _ (codec : Codec) (py : PyText) (faults : Faults) (now : ℕ) (disk : Disk codec.Text)
    (ps : List EdgePolicy) (primary_name : Option String) where
  abbrev after : PolicyCache
  after = (replace_all codec py faults now disk ps primary_name).0

  compiled_by_name-replace_all :
      (n : String) → compiled_by_name after n ≡ Option.map (compile py) (last_named n ps)
  unfolding replace_all compiled_by_name make_snapshot
  compiled_by_name-replace_all n = ground (arith, lookup-add_snapshots py now [] ps n)

  primary_name-replace_all : after.primary_name ≡ named ps primary_name
  unfolding replace_all
  primary_name-replace_all = keep_primary-named py now ps primary_name

  -- After `replace_all` a name finds the compiled form of the last policy of that name and nothing
  -- else, whatever the cache held before and whether or not the files could be written; and the
  -- primary is the one that was asked for if a policy has its name, and none otherwise.
  pub replace_all-reads :
      ((n : String) → compiled_by_name after n ≡ Option.map (compile py) (last_named n ps))
      × (after.primary_name ≡ named ps primary_name)
  replace_all-reads = (compiled_by_name-replace_all, primary_name-replace_all)
