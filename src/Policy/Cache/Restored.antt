-- ===== src/Policy/Cache/Restored.antt =====
-- `load_from_disk` of src/edge/policy/cache.py, and the invariant of the cache.
use Prim.Native.Nat.{ℕ}
use Prim.Native.String.{String}
use mathlib.Core.Path.{◌≡◌, refl, subst}
use mathlib.Core.Logic.{inl, inr}
use mathlib.Core.Option.{Option, none, some}
use mathlib.Core.List.{List, [], ◌∷◌}
use trustmodel_edge.Prelude.Tests.{Bool-cases, Option-cases}
use trustmodel_edge.Prelude.Lists.{is_empty}
use trustmodel_edge.Prelude.Dict.{Dict, lookup}
use trustmodel_edge.Value.{Value, str, list, dict, PyText, str_of, get_field}
use trustmodel_edge.Policy.Bundle.{EdgePolicy}
use trustmodel_edge.Policy.Disk.{Codec, Disk}
use trustmodel_edge.Policy.Cache.{CacheSnapshot, PolicyCache, keep_primary}
use trustmodel_edge.Policy.Cache.Loading.{
  Load, loaded, not_loaded, crashed, read_policy, add_read, load_policy, load_policies, finish_load,
  load_names, load_manifest_value, load_manifest, load_legacy, or_load, load_from_disk, newest,
  list_of, names_or_empty,
}
use trustmodel_edge.Policy.Cache.Validity.{
  IsKeyed, IsValid, IsKeyed-nil, IsKeyed-insert, keep_primary_sound, replaced-IsValid,
}

add_read-IsKeyed :
    (codec : Codec) (py : PyText) (snaps : Dict CacheSnapshot) (mtime : ℕ) (o : Option EdgePolicy)
    → IsKeyed py snaps
    → IsKeyed py (add_read codec py snaps mtime o)
unfolding add_read
add_read-IsKeyed codec py snaps mtime none keyed = keyed
add_read-IsKeyed codec py snaps mtime (some p) keyed = IsKeyed-insert py mtime p snaps keyed

load_policy-IsKeyed :
    (codec : Codec) (py : PyText) (disk : Disk codec.Text) (snaps : Dict CacheSnapshot) (n : String)
    → IsKeyed py snaps
    → IsKeyed py (load_policy codec py disk snaps n)
unfolding load_policy
load_policy-IsKeyed codec py disk snaps n keyed = elim (Option-cases (lookup n disk.policies)) [
  | inl e ↦ rw (e, load_policy) keyed
  | inr (file, e) ↦
      rw (e, load_policy)
        (add_read-IsKeyed codec py snaps file.mtime (read_policy codec py file) keyed)
]

load_policies-IsKeyed :
    (codec : Codec) (py : PyText) (disk : Disk codec.Text) (snaps : Dict CacheSnapshot)
    (names : List Value)
    → IsKeyed py snaps
    → IsKeyed py (load_policies codec py disk snaps names)
unfolding load_policies
load_policies-IsKeyed codec py disk snaps [] keyed = keyed
load_policies-IsKeyed codec py disk snaps (name ∷ names) keyed =
    load_policies-IsKeyed codec py disk (load_policy codec py disk snaps (str_of py name)) names
      (load_policy-IsKeyed codec py disk snaps (str_of py name) keyed)

-- The caches that a load can give are valid.
abbrev Gives : PyText → Load → Type 0
Gives py (loaded c) = IsValid py c
Gives py not_loaded = Unit
Gives py crashed = Unit

keep_primary-IsValid :
    (py : PyText) (snaps : Dict CacheSnapshot) (primary_name : Option String) (time : ℕ)
    → IsKeyed py snaps
    → IsValid py (record {
      snapshots = snaps;
      primary_name = keep_primary snaps primary_name;
      last_success_at = some time;
    })
keep_primary-IsValid py snaps primary_name time keyed = record {
  primary = keep_primary_sound snaps primary_name;
  keyed = keyed;
  dated = λ _. refl;
}

module _ (codec : Codec) (py : PyText) where
  finish_load-Gives :
      (snaps : Dict CacheSnapshot) (primary_name : Option Value)
      → IsKeyed py snaps
      → Gives py (finish_load codec py snaps primary_name)
  unfolding finish_load
  finish_load-Gives snaps (some (str name)) keyed =
      keep_primary-IsValid py snaps (some name) (newest codec py 0 snaps) keyed
  finish_load-Gives snaps (some (list _)) keyed = tt
  finish_load-Gives snaps (some (dict _)) keyed = tt
  finish_load-Gives snaps _ keyed =
      keep_primary-IsValid py snaps none (newest codec py 0 snaps) keyed

  load_names-Gives :
      (disk : Disk codec.Text) (primary_name : Option Value) (names : List Value)
      → Gives py (load_names codec py disk primary_name names)
  unfolding load_names
  load_names-Gives disk primary_name names =
      elim (Bool-cases (is_empty (load_policies codec py disk [] names))) [
        | inl e ↦ rw (e, load_names) tt
        | inr e ↦
            rw (e, load_names)
              (finish_load-Gives (load_policies codec py disk [] names) primary_name
                (load_policies-IsKeyed codec py disk [] names (IsKeyed-nil py)))
      ]

  load_manifest_value-Gives :
      (disk : Disk codec.Text) (v : Value) → Gives py (load_manifest_value codec py disk v)
  unfolding load_manifest_value
  load_manifest_value-Gives disk (dict fs) =
      elim (Option-cases (list_of (names_or_empty (get_field "names" fs)))) [
        | inl e ↦ rw (e, load_manifest_value) tt
        | inr (names, e) ↦
            rw (e, load_manifest_value) (load_names-Gives disk (get_field "primary_name" fs) names)
      ]
  load_manifest_value-Gives disk _ = tt

  load_manifest-Gives : (disk : Disk codec.Text) → Gives py (load_manifest codec py disk)
  unfolding load_manifest
  load_manifest-Gives disk = elim (Option-cases disk.manifest) [
    | inl e ↦ rw (e, load_manifest) tt
    | inr (file, e) ↦ elim (Option-cases (codec.loads file.text)) [
      | inl e' ↦ rw (e, load_manifest) (rw e' tt)
      | inr (v, e') ↦ rw (e, load_manifest) (rw e' (load_manifest_value-Gives disk v))
    ]
  ]

  load_legacy-Gives : (disk : Disk codec.Text) → Gives py (load_legacy codec py disk)
  unfolding load_legacy
  load_legacy-Gives disk = elim (Option-cases disk.legacy) [
    | inl e ↦ rw (e, load_legacy) tt
    | inr (file, e) ↦ elim (Option-cases (read_policy codec py file)) [
      | inl e' ↦ rw (e, load_legacy) (rw e' tt)
      | inr (p, e') ↦ rw (e, load_legacy) (rw e' (replaced-IsValid py file.mtime p))
    ]
  ]

  or_load-Gives :
      (first second : Load)
      → Gives py first
      → Gives py second
      → Gives py (or_load codec py first second)
  unfolding or_load
  or_load-Gives (loaded c) second h k = h
  or_load-Gives not_loaded second h k = k
  or_load-Gives crashed second h k = tt

  load_from_disk-Gives : (disk : Disk codec.Text) → Gives py (load_from_disk codec py disk)
  unfolding load_from_disk
  load_from_disk-Gives disk =
      or_load-Gives (load_manifest codec py disk) (load_legacy codec py disk)
        (load_manifest-Gives disk) (load_legacy-Gives disk)

  -- Whatever is on disk, a cache that is loaded from it is valid.
  pub load_from_disk-IsValid :
      (disk : Disk codec.Text) (c : PolicyCache)
      → load_from_disk codec py disk ≡ loaded c
      → IsValid py c
  load_from_disk-IsValid disk c h = subst (Gives py) h (load_from_disk-Gives disk)
