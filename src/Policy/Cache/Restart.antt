-- ===== src/Policy/Cache/Restart.antt =====
-- What a restart finds: `load_from_disk` after `replace_all` and after `replace` of
-- src/edge/policy/cache.py.
use Prim.Native.Nat.{ℕ}
use Prim.Native.String.{String}
use mathlib.Core.Path.{◌≡◌, refl, sym, ap, ◌∙◌, subst}
use mathlib.Core.Logic.{◌≢◌}
use mathlib.Core.Bool.{Bool, true, false}
use mathlib.Core.Option
use mathlib.Core.Option.{Option, none, some}
use mathlib.Core.List.{List, [], ◌∷◌, map}
use mathlib.Core.List.Memᴰ
use native.Mathlib.Omega.{arith}
use trustmodel_edge.Prelude.Lists.{All, All-Memᴰ, All-of_Memᴰ, is_empty}
use trustmodel_edge.Prelude.Dict.{Dict, lookup}
use trustmodel_edge.Value.{Value, str, PyText}
use trustmodel_edge.Policy.Bundle.{EdgePolicy}
use trustmodel_edge.Policy.Disk.{
  Codec, Disk, Faults, policy_names, sorted_names, manifest_value, write_policies,
  persist_manifest_to_disk, or_none,
}
use trustmodel_edge.Policy.Cache.{
  CacheSnapshot, PolicyCache, compile, make_snapshot, compiled_by_name, keep_primary, replace_all,
}
use trustmodel_edge.Policy.Cache.Loading.{
  loaded, finish_load, load_names, load_policies, load_manifest_value, load_manifest, load_legacy,
  or_load, load_from_disk, newest,
}
use trustmodel_edge.Policy.Cache.Reads.{last_named, named, keep_primary-named, replace_all-reads}
use trustmodel_edge.Policy.Cache.Named.{last_named_of_contains, Memᴰ→contains}
use trustmodel_edge.Policy.Cache.Files.{
  ReadsBack, Holds, loaded-lookup, written, persist-written, written-holds,
  load_manifest_value-names, finish_load-loaded,
}

module _ (codec : Codec) (py : PyText) (faults : Faults) (p : EdgePolicy) (ps : List EdgePolicy)
    (trips : All (ReadsBack codec faults py) (p ∷ ps)) (disk : Disk codec.Text) where
  abbrev names : List String
  names = policy_names (p ∷ ps)

  abbrev found : Dict CacheSnapshot
  found = load_policies codec py disk [] (map str (sorted_names names))

  module _ (holds : All (Holds codec py faults (p ∷ ps) trips disk) names) where
    found-lookup :
        (n : String)
        → lookup n found ≡ Option.map (make_snapshot py faults.mtime) (last_named n (p ∷ ps))
    found-lookup = loaded-lookup codec py faults (p ∷ ps) trips disk holds

    found-nonempty : is_empty found ≡ false
    unfolding lookup
    found-nonempty = ground (
      arith,
      found-lookup p.bundle.name,
      last_named_of_contains p.bundle.name (p ∷ ps),
      Memᴰ→contains p.bundle.name names (Memᴰ.head refl),
    )

    found-keep_primary :
        (primary_name : Option String)
        → keep_primary found (named (p ∷ ps) primary_name) ≡ named (p ∷ ps) primary_name
    unfolding keep_primary
    found-keep_primary none = refl
    found-keep_primary (some n) = ground (arith, found-lookup n)

    -- The cache that the load gives.
    abbrev reloaded : Option String → PolicyCache
    reloaded primary_name = record {
      snapshots = found;
      primary_name = named (p ∷ ps) primary_name;
      last_success_at = some (newest codec py 0 found);
    }

    load_names_nonempty :
        (primary : Option Value)
        → load_names codec py disk primary (map str (sorted_names names))
          ≡ finish_load codec py found primary
    unfolding load_names
    load_names_nonempty primary = rw (found-nonempty, load_names)

    load_manifest_value-reloaded :
        (primary_name : Option String)
        → load_manifest_value codec py disk (manifest_value (named (p ∷ ps) primary_name) (p ∷ ps))
          ≡ loaded (reloaded primary_name)
    load_manifest_value-reloaded primary_name =
        load_manifest_value-names codec py disk (named (p ∷ ps) primary_name) (p ∷ ps)
        ∙ load_names_nonempty (some (or_none (named (p ∷ ps) primary_name)))
        ∙ finish_load-loaded codec py disk found (named (p ∷ ps) primary_name)
        ∙ ap
            (λ (n : Option String). loaded (record {
              snapshots = found;
              primary_name = n;
              last_success_at = some (newest codec py 0 found);
            }))
            (found-keep_primary primary_name)

map-make_snapshot :
    (py : PyText) (time : ℕ) (o : Option EdgePolicy)
    → Option.map (λ s. s.compiled) (Option.map (make_snapshot py time) o)
      ≡ Option.map (compile py) o
unfolding make_snapshot
map-make_snapshot py time none = refl
map-make_snapshot py time (some p) = refl

module _ (codec : Codec) (py : PyText) (faults : Faults) (now : ℕ) (disk : Disk codec.Text)
    (p : EdgePolicy) (ps : List EdgePolicy) (primary_name : Option String)
    (trips : All (ReadsBack codec faults py) (p ∷ ps))
    (all_named : All (λ n. n ≢ "") (policy_names (p ∷ ps)))
    (json : (v : Value) → codec.loads (codec.dumps v) ≡ some v)
    (returned : (replace_all codec py faults now disk (p ∷ ps) primary_name).2 ≡ true) where
  abbrev before : PolicyCache
  before = (replace_all codec py faults now disk (p ∷ ps) primary_name).0

  abbrev left : Disk codec.Text
  left = (replace_all codec py faults now disk (p ∷ ps) primary_name).1

  -- The directory that the call leaves, by its parts.
  abbrev parts : Disk codec.Text
  parts = written codec faults disk (named (p ∷ ps) primary_name) (p ∷ ps)

  abbrev persisted : Option String → Disk codec.Text × Bool
  persisted n = persist_manifest_to_disk codec faults disk n (p ∷ ps)

  persist-named :
      (left ≡ (persisted (named (p ∷ ps) primary_name)).0)
      × ((persisted (named (p ∷ ps) primary_name)).1 ≡ true)
  unfolding replace_all
  persist-named =
      let same = keep_primary-named py now (p ∷ ps) primary_name in
      (
        ap (λ (n : Option String). (persisted n).0) same,
        subst (λ (n : Option String). (persisted n).1 ≡ true) same returned,
      )

  left-parts : (left ≡ parts) × ((write_policies codec faults disk.policies (p ∷ ps)).1 ≡ true)
  left-parts =
      let (same, done) = persist-named in
      let (kept, wrote) =
        persist-written codec faults disk (named (p ∷ ps) primary_name) (p ∷ ps) done in
      (same ∙ kept, wrote)

  parts-Holds : All (Holds codec py faults (p ∷ ps) trips parts) (policy_names (p ∷ ps))
  parts-Holds =
      All-of_Memᴰ (Holds codec py faults (p ∷ ps) trips parts) (policy_names (p ∷ ps)) (λ n m.
        written-holds codec faults disk (named (p ∷ ps) primary_name) (p ∷ ps) left-parts.1 n
          (All-Memᴰ (λ (k : String). k ≢ "") m all_named)
          (Memᴰ→contains n (policy_names (p ∷ ps)) m))

  abbrev again : PolicyCache
  again = reloaded codec py faults p ps trips parts parts-Holds primary_name

  load_manifest-parts :
      load_manifest codec py parts
      ≡ load_manifest_value codec py parts (manifest_value (named (p ∷ ps) primary_name) (p ∷ ps))
  unfolding load_manifest
  load_manifest-parts =
      rw (json (manifest_value (named (p ∷ ps) primary_name) (p ∷ ps)), load_manifest)

  load-parts : load_from_disk codec py parts ≡ loaded again
  unfolding load_from_disk or_load
  load-parts =
      ap (λ l. or_load codec py l (load_legacy codec py parts))
        (load_manifest-parts
          ∙ load_manifest_value-reloaded codec py faults p ps trips parts parts-Holds primary_name)

  compiled_by_name-again : (n : String) → compiled_by_name again n ≡ compiled_by_name before n
  unfolding compiled_by_name make_snapshot
  compiled_by_name-again n =
      ap (Option.map (λ s. s.compiled))
        (found-lookup codec py faults p ps trips parts parts-Holds n)
      ∙ map-make_snapshot py faults.mtime (last_named n (p ∷ ps))
      ∙ sym ((replace_all-reads codec py faults now disk (p ∷ ps) primary_name).0 n)

  -- A restart loses nothing: if the call of `replace_all` with at least one policy returned, then
  -- `load_from_disk` on the directory that it left gives a cache in which every name finds the same
  -- compiled policy as before, with the same primary. This holds whatever files were there and
  -- whichever of the unlinks failed, if no policy has the empty name, json reads back what it wrote and
  -- each written policy reads back as itself.
  pub replace_all-restart :
      (c : PolicyCache) × (load_from_disk codec py left ≡ loaded c)
      × ((n : String) → compiled_by_name c n ≡ compiled_by_name before n)
      × (c.primary_name ≡ before.primary_name)
  replace_all-restart = (
    again,
    ap (load_from_disk codec py) left-parts.0 ∙ load-parts,
    compiled_by_name-again,
    sym (replace_all-reads codec py faults now disk (p ∷ ps) primary_name).1,
  )
