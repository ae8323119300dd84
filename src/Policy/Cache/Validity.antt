-- ===== src/Policy/Cache/Validity.antt =====
-- The invariant of the policy cache of src/edge/policy/cache.py, and what a reader finds by name.
use Prim.Native.Nat.{ℕ}
use Prim.Native.String.{String}
use mathlib.Core.Path.{◌≡◌, refl}
use mathlib.Core.Bool.{true}
use mathlib.Core.Option.{Option, none, some}
use mathlib.Core.List.{List, [], ◌∷◌}
use native.Mathlib.Omega.{arith}
use text.Mathlib.TextEquality.{eq_iff}
use trustmodel_edge.Prelude.Tests.{is_some}
use trustmodel_edge.Prelude.Dict.{Dict, lookup, insert, has_key, lookup-insert}
use trustmodel_edge.Value.{PyText}
use trustmodel_edge.Policy.Bundle.{EdgePolicy}
use trustmodel_edge.Policy.Disk.{Codec, Disk, Faults}
use trustmodel_edge.Policy.Cache.{
  CacheSnapshot, PolicyCache, empty_cache, is_warm, compile, make_snapshot, add_snapshots,
  keep_primary, replaced, replaced_all, replace, replace_all,
}

-- Every snapshot stands under the name of its own bundle and holds that bundle compiled.
abbrev pub IsKeyed : PyText → Dict CacheSnapshot → Type 0
IsKeyed py snaps =
    (n : String) (s : CacheSnapshot)
    → lookup n snaps ≡ some s
    → (s.edge_policy.bundle.name ≡ n) × (s.compiled ≡ compile py s.edge_policy)

pub record IsValid (py : PyText) (c : PolicyCache) : Type 0 where
  -- the primary, if there is one, is in the map
  pub primary : (n : String) → c.primary_name ≡ some n → has_key n c.snapshots ≡ true
  pub keyed : IsKeyed py c.snapshots
  -- a warm cache has a time of its last success
  pub dated : is_warm c ≡ true → is_some c.last_success_at ≡ true

pub IsKeyed-nil : (py : PyText) → IsKeyed py []
unfolding lookup
IsKeyed-nil py n s h = cc

pub IsKeyed-insert :
    (py : PyText) (time : ℕ) (p : EdgePolicy) (snaps : Dict CacheSnapshot)
    → IsKeyed py snaps
    → IsKeyed py (insert p.bundle.name (make_snapshot py time p) snaps)
unfolding make_snapshot
IsKeyed-insert py time p snaps keyed n s h = ground (
  arith,
  lookup-insert p.bundle.name n (make_snapshot py time p) snaps,
  eq_iff p.bundle.name n,
  keyed n s,
)

IsKeyed-add_snapshots :
    (py : PyText) (time : ℕ) (snaps : Dict CacheSnapshot) (ps : List EdgePolicy)
    → IsKeyed py snaps
    → IsKeyed py (add_snapshots py time snaps ps)
unfolding add_snapshots
IsKeyed-add_snapshots py time snaps [] keyed = keyed
IsKeyed-add_snapshots py time snaps (p ∷ ps) keyed =
    IsKeyed-add_snapshots py time (insert p.bundle.name (make_snapshot py time p) snaps) ps
      (IsKeyed-insert py time p snaps keyed)

pub keep_primary_sound :
    (snaps : Dict CacheSnapshot) (primary_name : Option String) (n : String)
    → keep_primary snaps primary_name ≡ some n
    → has_key n snaps ≡ true
unfolding keep_primary
keep_primary_sound snaps none n h = cc
keep_primary_sound snaps (some name) n h = ground (arith, eq_iff name n)

pub empty_cache-IsValid : (py : PyText) → IsValid py empty_cache
unfolding is_warm lookup
empty_cache-IsValid py = record {
  primary = λ n h. absurd (cc);
  keyed = IsKeyed-nil py;
  dated = λ h. absurd (cc);
}

pub replaced-IsValid : (py : PyText) (now : ℕ) (p : EdgePolicy) → IsValid py (replaced py now p)
unfolding replaced insert lookup
replaced-IsValid py now p = record {
  primary = λ n h. ground (arith, eq_iff p.bundle.name n);
  keyed = IsKeyed-insert py now p [] (IsKeyed-nil py);
  dated = λ _. refl;
}

pub replaced_all-IsValid :
    (py : PyText) (now : ℕ) (ps : List EdgePolicy) (primary_name : Option String)
    → IsValid py (replaced_all py now ps primary_name)
unfolding replaced_all
replaced_all-IsValid py now ps primary_name = record {
  primary = keep_primary_sound _ primary_name;
  keyed = IsKeyed-add_snapshots py now [] ps (IsKeyed-nil py);
  dated = λ _. refl;
}

module _ (codec : Codec) (py : PyText) where
  -- Whatever the file system does, `replace` and `replace_all` leave a valid cache.
  pub replace-IsValid :
      (faults : Faults) (now : ℕ) (disk : Disk codec.Text) (p : EdgePolicy) (ps : List EdgePolicy)
      (primary_name : Option String)
      → IsValid py (replace codec py faults now disk p).0
        × IsValid py (replace_all codec py faults now disk ps primary_name).0
  unfolding replace replace_all
  replace-IsValid faults now disk p ps primary_name =
      (replaced-IsValid py now p, replaced_all-IsValid py now ps primary_name)
