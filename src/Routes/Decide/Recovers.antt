-- ===== src/Routes/Decide/Recovers.antt =====
-- What `decide` of src/edge/routes/decide.py does after a sync.
use Prim.Native.Nat.{ℕ, ◌+◌, ◌*◌, ◌≤◌}
use Prim.Native.String.{String}
use mathlib.Core.Path.{◌≡◌, refl, ap, ◌∙◌}
use mathlib.Core.Option
use mathlib.Core.List.{List}
use trustmodel_edge.Engine.Compiler.{CompiledPolicy}
use mathlib.Core.Bool.{true, false}
use mathlib.Core.Option.{Option, none, some}
use native.Mathlib.Omega.{arith}
use text.Mathlib.TextEquality.{eq_iff}
use trustmodel_edge.Prelude.Int.{sub_ℕ, pos, ltb_ℤ}
use trustmodel_edge.Prelude.Dict.{lookup}
use trustmodel_edge.Value.{Value, PyText}
use trustmodel_edge.Config.{Settings}
use trustmodel_edge.Policy.Bundle.{AuthorizedClient, EdgePolicy}
use trustmodel_edge.Policy.Disk.{Codec, Disk, Faults}
use trustmodel_edge.Policy.Cache.{
  PolicyCache, compile, make_snapshot, replace, replace_all, replaced, replaced_all,
  snapshot_by_name, compiled_by_name, primary_compiled,
}
use trustmodel_edge.Policy.Cache.Reads.{last_named, replace_all-reads}
use trustmodel_edge.Policy.Client.{fetched, fetch, Active, fetch_all}
use trustmodel_edge.Policy.Stale.{status}
use trustmodel_edge.Policy.Sync.{Round, State, sync_once, sync_once_singular, sync_once_multi}
use trustmodel_edge.Routes.Decide.{
  DecideRequest, Edge, Services, decide_fresh, decide_compiled, decide_routed, routed_name,
}
use trustmodel_edge.Routes.Bearer.{Moment}

not_stale :
    (now last threshold : ℕ)
    → now ≤ last + threshold * 1000000
    → ltb_ℤ (pos (threshold * 1000000)) (sub_ℕ now last) ≡ false
not_stale now last threshold h = ground arith

primary-replaced :
    (py : PyText) (synced_at : ℕ) (p : EdgePolicy)
    → primary_compiled (replaced py synced_at p) ≡ some (compile py p)
unfolding primary_compiled compiled_by_name snapshot_by_name lookup replaced make_snapshot
primary-replaced py synced_at p = ground (arith, eq_iff p.bundle.name p.bundle.name)

-- A cache whose last success was at a time.
status-fresh :
    (now : ℕ) (cache : PolicyCache) (synced_at threshold : ℕ)
    → cache.last_success_at ≡ some synced_at
    → now ≤ synced_at + threshold * 1000000
    → (status now cache threshold).is_stale ≡ false
unfolding status
status-fresh now cache synced_at threshold dated early =
    rw (dated, not_stale now synced_at threshold early)

module _ (codec : Codec) (services : Services) (cfg : Settings) (at : Moment) (body : DecideRequest)
    (validate_client : Value → Option AuthorizedClient) where
  decide_routed-replaced :
      (cache : PolicyCache) (synced_at : ℕ) (p : EdgePolicy) (agent_id : Option String)
      (edge : Edge)
      → cache ≡ replaced services.py synced_at p
      → cfg.multi_policy_enabled ≡ false
      → at.now ≤ synced_at + cfg.policy_stale_threshold_seconds * 1000000
      → decide_routed services cfg cache at body agent_id edge
        ≡ decide_fresh services cfg cache at body (compile services.py p) agent_id edge
  unfolding decide_routed replaced
  decide_routed-replaced cache synced_at p agent_id edge made single early =
      rw (decide_routed, unrouted, primary_of, decide_compiled, fresh)
    where
      unrouted : routed_name cfg body ≡ none
      unrouted = rw single

      primary_of : primary_compiled cache ≡ some (compile services.py p)
      primary_of = rw made (primary-replaced services.py synced_at p)

      fresh : (status at.now cache cfg.policy_stale_threshold_seconds).is_stale ≡ false
      fresh =
          status-fresh at.now cache synced_at cfg.policy_stale_threshold_seconds (rw made refl)
            early

  -- In single-policy mode, once a sync has fetched a policy, every authenticated decision is made by the
  -- evaluator on that policy, not by the fail mode, until the threshold of staleness has passed since
  -- the sync, however cold or stale the cache was before and whether or not the files could be written.
  pub decide_routed-sync_once :
      (round : Round) (state : State codec services.py validate_client) (p : EdgePolicy)
      → fetch codec validate_client round.singular ≡ fetched p
      → cfg.multi_policy_enabled ≡ false
      → at.now ≤ round.now + cfg.policy_stale_threshold_seconds * 1000000
      → (agent_id : Option String) (edge : Edge)
      → decide_routed services cfg
          (sync_once codec services.py validate_client false round state).0.0
          at
          body
          agent_id
          edge
        ≡ decide_fresh services cfg
            (sync_once codec services.py validate_client false round state).0.0
            at
            body
            (compile services.py p)
            agent_id
            edge
  unfolding sync_once sync_once_singular replace
  decide_routed-sync_once round state p e single early agent_id edge =
      decide_routed-replaced (sync_once codec services.py validate_client false round state).0.0
        round.now p agent_id edge (rw e refl) single early

  decide_routed-named :
      (cache : PolicyCache) (synced_at : ℕ) (name : String) (compiled : CompiledPolicy)
      (agent_id : Option String) (edge : Edge)
      → routed_name cfg body ≡ some name
      → compiled_by_name cache name ≡ some compiled
      → cache.last_success_at ≡ some synced_at
      → at.now ≤ synced_at + cfg.policy_stale_threshold_seconds * 1000000
      → decide_routed services cfg cache at body agent_id edge
        ≡ decide_fresh services cfg cache at body compiled agent_id edge
  unfolding decide_routed
  decide_routed-named cache synced_at name compiled agent_id edge routed found dated early =
      rw (decide_routed, routed, found, decide_compiled, fresh)
    where
      fresh : (status at.now cache cfg.policy_stale_threshold_seconds).is_stale ≡ false
      fresh = status-fresh at.now cache synced_at cfg.policy_stale_threshold_seconds dated early

  sync_once-replace_all :
      (round : Round) (state : State codec services.py validate_client) (a : Active)
      → fetch_all codec validate_client round.plural round.singular ≡ fetched a
      → (sync_once codec services.py validate_client true round state).0.0
        ≡ (replace_all codec services.py round.faults round.now state.1 a.policies a.primary_name).0
  unfolding sync_once sync_once_multi
  sync_once-replace_all round state a e = rw (e, sync_once, sync_once_multi) refl

  replace_all-dated :
      (faults : Faults) (now : ℕ) (disk : Disk codec.Text) (ps : List EdgePolicy)
      (primary_name : Option String)
      → (replace_all codec services.py faults now disk ps primary_name).0.last_success_at ≡ some now
  unfolding replace_all replaced_all
  replace_all-dated faults now disk ps primary_name = refl

  -- In multi-policy mode, once a sync has fetched the active policies, every authenticated decision that
  -- names one of them is made by the evaluator on the last of that name, not by the fail mode, until the
  -- threshold of staleness has passed since the sync, whatever the cache held before and whether or not
  -- the files could be written.
  pub decide_routed-sync_once_multi :
      (round : Round) (state : State codec services.py validate_client) (a : Active) (name : String)
      (p : EdgePolicy)
      → fetch_all codec validate_client round.plural round.singular ≡ fetched a
      → routed_name cfg body ≡ some name
      → last_named name a.policies ≡ some p
      → at.now ≤ round.now + cfg.policy_stale_threshold_seconds * 1000000
      → (agent_id : Option String) (edge : Edge)
      → decide_routed services cfg
          (sync_once codec services.py validate_client true round state).0.0
          at
          body
          agent_id
          edge
        ≡ decide_fresh services cfg
            (sync_once codec services.py validate_client true round state).0.0
            at
            body
            (compile services.py p)
            agent_id
            edge
  decide_routed-sync_once_multi round state a name p e routed last early agent_id edge =
      decide_routed-named (sync_once codec services.py validate_client true round state).0.0
        round.now name (compile services.py p) agent_id edge routed
        (ap (λ c. compiled_by_name c name) made
          ∙ (replace_all-reads codec services.py round.faults round.now state.1 a.policies
                a.primary_name).0
              name
          ∙ ap (Option.map (compile services.py)) last)
        (ap (λ c. c.last_success_at) made
          ∙ replace_all-dated round.faults round.now state.1 a.policies a.primary_name)
        early
    where
      made :
          (sync_once codec services.py validate_client true round state).0.0
          ≡ (replace_all codec services.py round.faults round.now state.1 a.policies
              a.primary_name).0
      made = sync_once-replace_all round state a e
