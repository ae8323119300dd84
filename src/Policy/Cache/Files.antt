-- ===== src/Policy/Cache/Files.antt =====
-- The files that `_persist_manifest_to_disk` of src/edge/policy/cache.py leaves, and what `_load_manifest`
-- makes of them.
use Prim.Native.String.{String}
use mathlib.Core.Path.{◌≡◌, refl, ap, ◌∙◌}
use mathlib.Core.Logic.{inl, inr, ◌≢◌}
use mathlib.Core.Bool.{true}
use mathlib.Core.Option
use mathlib.Core.Option.{Option, none, some}
use mathlib.Core.List.{List, [], ◌∷◌, map}
use native.Mathlib.Omega.{arith}
use text.Mathlib.Text.{◌==◌}
use text.Mathlib.TextEquality.{eq_iff}
use trustmodel_edge.Prelude.Tests.{if◌then◌else◌, Option-cases}
use trustmodel_edge.Prelude.Lists.{All}
use trustmodel_edge.Prelude.Dict.{Dict, lookup, insert, lookup-insert}
use trustmodel_edge.Value.{str, PyText}
use trustmodel_edge.Policy.Bundle.{EdgePolicy}
use trustmodel_edge.Policy.Disk.{
  Codec, File, Disk, Faults, policy_names, sorted_names, manifest_value, stem_of, write_policies,
  drop_orphans, persist_manifest_to_disk, to_items, or_none,
}
use trustmodel_edge.Engine.Compiler.{contains}
use trustmodel_edge.Policy.Cache.{CacheSnapshot, make_snapshot, keep_primary}
use trustmodel_edge.Policy.Cache.Loading.{
  loaded, items_list, newest, finish_load, load_names, load_manifest_value, read_policy, add_read,
  load_policy, load_policies,
}
use trustmodel_edge.Policy.Cache.Reads.{last_named, or_first}
use trustmodel_edge.Policy.Cache.Named.{
  All-last_named, last_named_of_contains, contains-sorted_names, sorted_names-All,
}

module _ (codec : Codec) (faults : Faults) where
  -- The file that is written for a policy.
  abbrev file_of : EdgePolicy → File codec.Text
  file_of p = record { text = codec.model_dump_json p; mtime = faults.mtime }

  lookup-write_policies :
      (files : Dict (File codec.Text)) (ps : List EdgePolicy) (n : String)
      → (write_policies codec faults files ps).1 ≡ true
      → lookup n (write_policies codec faults files ps).0
        ≡ or_first (Option.map file_of (last_named n ps)) (lookup n files)
  unfolding write_policies
  lookup-write_policies files [] n h = refl
  lookup-write_policies files (p ∷ ps) n h = ground (
    arith,
    lookup-write_policies (insert p.bundle.name (file_of p) files) ps n,
    lookup-insert p.bundle.name n (file_of p) files,
  )

  lookup-drop_orphans :
      (current : List String) (files : Dict (File codec.Text)) (n : String)
      → n ≢ ""
      → contains n current ≡ true
      → lookup n (drop_orphans codec faults current files) ≡ lookup n files
  unfolding drop_orphans lookup stem_of
  lookup-drop_orphans current [] n ne h = refl
  lookup-drop_orphans current ((j, f) ∷ files) n ne h =
      ground (arith, lookup-drop_orphans current files n ne h, eq_iff j n, eq_iff j "")

  -- The file that is written for the policy reads back as the policy.
  abbrev pub ReadsBack : PyText → EdgePolicy → Type 0
  ReadsBack py p = read_policy codec py (file_of p) ≡ some p

module _ (codec : Codec) (py : PyText) (faults : Faults) (ps : List EdgePolicy)
    (trips : All (ReadsBack codec faults py) ps) (disk : Disk codec.Text) where
  abbrev snap : EdgePolicy → CacheSnapshot
  snap = make_snapshot py faults.mtime

  -- The directory holds, under the name, the file of the last policy of that name.
  abbrev pub Holds : String → Type 0
  Holds n = lookup n disk.policies ≡ Option.map (file_of codec faults) (last_named n ps)

  load_policy_missing :
      (snaps : Dict CacheSnapshot) (m : String)
      → lookup m disk.policies ≡ none
      → load_policy codec py disk snaps m ≡ snaps
  unfolding load_policy
  load_policy_missing snaps m e = rw (e, load_policy)

  load_policy_file :
      (snaps : Dict CacheSnapshot) (m : String) (file : File codec.Text)
      → lookup m disk.policies ≡ some file
      → load_policy codec py disk snaps m
        ≡ add_read codec py snaps file.mtime (read_policy codec py file)
  unfolding load_policy
  load_policy_file snaps m file e = rw (e, load_policy)

  load_policy_found :
      (snaps : Dict CacheSnapshot) (m : String) (q : EdgePolicy)
      → ReadsBack codec faults py q
      → lookup m disk.policies ≡ some (file_of codec faults q)
      → load_policy codec py disk snaps m ≡ insert q.bundle.name (snap q) snaps
  unfolding add_read
  load_policy_found snaps m q reads e =
      load_policy_file snaps m (file_of codec faults q) e
      ∙ ap (add_read codec py snaps faults.mtime) reads

  load_policy-lookup :
      (snaps : Dict CacheSnapshot) (m n : String)
      → Holds m
      → lookup n (load_policy codec py disk snaps m) ≡ (
          if m == n
          then or_first (Option.map snap (last_named m ps)) (lookup n snaps)
          else lookup n snaps)
  unfolding load_policy
  load_policy-lookup snaps m n h = elim (Option-cases (last_named m ps)) [
    | inl e ↦ ground (arith, load_policy_missing snaps m)
    | inr (q, e) ↦
        let (reads, name) = All-last_named (ReadsBack codec faults py) m ps q trips e in
        ground
          (arith, load_policy_found snaps m q reads, lookup-insert q.bundle.name n (snap q) snaps)
  ]

  load_policies-lookup :
      (snaps : Dict CacheSnapshot) (ms : List String) (n : String)
      → All Holds ms
      → lookup n (load_policies codec py disk snaps (map str ms)) ≡ (
          if contains n ms
          then or_first (Option.map snap (last_named n ps)) (lookup n snaps)
          else lookup n snaps)
  unfolding load_policies contains
  load_policies-lookup snaps [] n _ = refl
  load_policies-lookup snaps (m ∷ ms) n (h, hs) = ground (
    arith,
    load_policies-lookup (load_policy codec py disk snaps m) ms n hs,
    load_policy-lookup snaps m n h,
    eq_iff m n,
  )

  -- After all files are read a name finds the last policy of that name.
  pub loaded-lookup :
      All Holds (policy_names ps)
      → (n : String)
      → lookup n (load_policies codec py disk [] (map str (sorted_names (policy_names ps))))
        ≡ Option.map snap (last_named n ps)
  unfolding lookup
  loaded-lookup holds n = ground (
    arith,
    load_policies-lookup [] (sorted_names (policy_names ps)) n
        (sorted_names-All Holds (policy_names ps) holds),
    last_named_of_contains n ps,
    contains-sorted_names n (policy_names ps),
  )

-- What `persist_manifest_to_disk` leaves when it returns.
module _ (codec : Codec) (faults : Faults) (disk : Disk codec.Text) (primary_name : Option String)
    (ps : List EdgePolicy) where
  abbrev pub written : Disk codec.Text
  written = record {
    manifest =
        some (record { text = codec.dumps (manifest_value primary_name ps); mtime = faults.mtime });
    legacy = disk.legacy;
    policies =
        drop_orphans codec faults (policy_names ps)
          (write_policies codec faults disk.policies ps).0;
  }

  pub persist-written :
      (persist_manifest_to_disk codec faults disk primary_name ps).1 ≡ true
      → ((persist_manifest_to_disk codec faults disk primary_name ps).0 ≡ written)
        × ((write_policies codec faults disk.policies ps).1 ≡ true)
  unfolding persist_manifest_to_disk
  persist-written h = (ground arith, ground arith)

  pub written-holds :
      (write_policies codec faults disk.policies ps).1 ≡ true
      → (n : String) → n ≢ ""
      → contains n (policy_names ps) ≡ true
      → lookup n written.policies ≡ Option.map (file_of codec faults) (last_named n ps)
  written-holds done n ne mem = ground (
    arith,
    lookup-drop_orphans codec faults (policy_names ps)
        (write_policies codec faults disk.policies ps).0 n ne mem,
    lookup-write_policies codec faults disk.policies ps n done,
    last_named_of_contains n ps,
  )

items_list-to_items : (ns : List String) → items_list (to_items ns) ≡ map str ns
items_list-to_items [] = refl
items_list-to_items (n ∷ ns) = ap (◌∷◌ (str n)) (items_list-to_items ns)

module _ (codec : Codec) (py : PyText) (disk : Disk codec.Text) where
  pub load_manifest_value-names :
      (primary_name : Option String) (ps : List EdgePolicy)
      → load_manifest_value codec py disk (manifest_value primary_name ps)
        ≡ load_names codec py disk
            (some (or_none primary_name))
            (map str (sorted_names (policy_names ps)))
  unfolding load_manifest_value manifest_value
  load_manifest_value-names primary_name ps =
      ap (load_names codec py disk (some (or_none primary_name)))
        (items_list-to_items (sorted_names (policy_names ps)))

  pub finish_load-loaded :
      (snaps : Dict CacheSnapshot) (primary_name : Option String)
      → finish_load codec py snaps (some (or_none primary_name))
        ≡ loaded (record {
          snapshots = snaps;
          primary_name = keep_primary snaps primary_name;
          last_success_at = some (newest codec py 0 snaps);
        })
  unfolding finish_load
  finish_load-loaded snaps none = refl
  finish_load-loaded snaps (some n) = refl
