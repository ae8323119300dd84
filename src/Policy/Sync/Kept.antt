-- ===== src/Policy/Sync/Kept.antt =====
-- What the syncs of src/edge/policy/sync.py keep.
use mathlib.Core.Path.{◌≡◌, refl, sym, subst}
use mathlib.Core.Logic.{◌⊎◌, inl, inr}
use mathlib.Core.Bool.{Bool, true, false}
use mathlib.Core.Option.{Option, none, some}
use mathlib.Core.List.{List, [], ◌∷◌}
use trustmodel_edge.Value.{Value, PyText}
use trustmodel_edge.Policy.Bundle.{AuthorizedClient, EdgePolicy}
use trustmodel_edge.Policy.Disk.{Codec}
use trustmodel_edge.Policy.Cache.{replace, replace_all}
use trustmodel_edge.Policy.Cache.Validity.{IsValid, replace-IsValid, replaced_all-IsValid}
use trustmodel_edge.Policy.Client.{
  Fetched, fetched, not_found, fetch_error, fetch_raised, Active, fetch, fetch_all,
}
use trustmodel_edge.Policy.Sync.{
  Round, State, after_fetch, after_fetch_all, sync_once_singular, sync_once_multi, sync_once,
  warmed, warm, run_forever,
}

module _ (codec : Codec) (py : PyText) (validate_client : Value → Option AuthorizedClient) where
  abbrev pub Synced : Type 0
  Synced = State codec py validate_client × Option Bool

  -- Nothing was fetched and nothing has changed, or the cache is the one for what was fetched.
  abbrev pub Kept : Bool → Round → State codec py validate_client → Synced → Type 0
  Kept false round state (state', result) =
      ((state' ≡ state) × ((result ≡ some true) → ⊥))
      ⊎ ((p : EdgePolicy) × (fetch codec validate_client round.singular ≡ fetched p)
          × (state'.0 ≡ (replace codec py round.faults round.now state.1 p).0))
  Kept true round state (state', result) =
      ((state' ≡ state) × ((result ≡ some true) → ⊥))
      ⊎ ((a : Active) × (fetch_all codec validate_client round.plural round.singular ≡ fetched a)
          × (state'.0
              ≡ (replace_all codec py round.faults round.now state.1 a.policies a.primary_name).0))

  singular-Kept :
      (round : Round) (state : State codec py validate_client) (f : Fetched EdgePolicy)
      → fetch codec validate_client round.singular ≡ f
      → Kept false round state (after_fetch codec py validate_client round f state)
  singular-Kept round state (fetched p) e = inr (p, e, refl)
  singular-Kept round state not_found e = inl (refl, λ h. absurd (cc))
  singular-Kept round state fetch_error e = inl (refl, λ h. absurd (cc))
  singular-Kept round state fetch_raised e = inl (refl, λ h. absurd (cc))

  multi-Kept :
      (round : Round) (state : State codec py validate_client) (f : Fetched Active)
      → fetch_all codec validate_client round.plural round.singular ≡ f
      → Kept true round state (after_fetch_all codec py validate_client round f state)
  multi-Kept round state (fetched a) e = inr (a, e, refl)
  multi-Kept round state not_found e = inl (refl, λ h. absurd (cc))
  multi-Kept round state fetch_error e = inl (refl, λ h. absurd (cc))
  multi-Kept round state fetch_raised e = inl (refl, λ h. absurd (cc))

  pub sync_once-Kept :
      (multi : Bool) (round : Round) (state : State codec py validate_client)
      → Kept multi round state (sync_once codec py validate_client multi round state)
  unfolding sync_once sync_once_singular sync_once_multi
  sync_once-Kept false round state = singular-Kept round state _ refl
  sync_once-Kept true round state = multi-Kept round state _ refl

  Kept-IsValid :
      (multi : Bool) (round : Round) (state : State codec py validate_client) (synced : Synced)
      → Kept multi round state synced
      → IsValid py state.0
      → IsValid py synced.0.0
  unfolding replace_all
  Kept-IsValid false round state synced (inl (same, _)) v = subst (λ s. IsValid py s.0) (sym same) v
  Kept-IsValid true round state synced (inl (same, _)) v = subst (λ s. IsValid py s.0) (sym same) v
  Kept-IsValid false round state synced (inr (p, _, made)) v =
      subst (IsValid py) (sym made)
        (replace-IsValid codec py round.faults round.now state.1 p [] none).0
  Kept-IsValid true round state synced (inr (a, _, made)) v =
      subst (IsValid py) (sym made) (replaced_all-IsValid py round.now a.policies a.primary_name)

  pub sync_once-IsValid :
      (multi : Bool) (round : Round) (state : State codec py validate_client)
      → IsValid py state.0
      → IsValid py (sync_once codec py validate_client multi round state).0.0
  sync_once-IsValid multi round state v =
      Kept-IsValid multi round state (sync_once codec py validate_client multi round state)
        (sync_once-Kept multi round state) v

  warmed-state :
      (require_success : Bool) (synced : Synced)
      → (warmed codec py validate_client require_success synced).0 ≡ synced.0
  warmed-state require_success (state, none) = refl
  warmed-state require_success (state, some true) = refl
  warmed-state require_success (state, some false) = refl

  pub warm-IsValid :
      (require_success multi : Bool) (round : Round) (state : State codec py validate_client)
      → IsValid py state.0
      → IsValid py (warm codec py validate_client require_success multi round state).0.0
  unfolding warm
  warm-IsValid require_success multi round state v =
      subst (λ s. IsValid py s.0)
        (sym (warmed-state require_success (sync_once codec py validate_client multi round state)))
        (sync_once-IsValid multi round state v)

  -- The background task keeps the cache valid through any rounds, whatever the gateway answers and
  -- whatever fails on disk.
  pub run_forever-IsValid :
      (multi : Bool) (rounds : List Round) (state : State codec py validate_client)
      → IsValid py state.0
      → IsValid py (run_forever codec py validate_client multi rounds state).0
  unfolding run_forever
  run_forever-IsValid multi [] state v = v
  run_forever-IsValid multi (round ∷ rounds) state v =
      went_on _ refl (run_forever-IsValid multi rounds _ once)
    where
      once : IsValid py (sync_once codec py validate_client multi round state).0.0
      once = sync_once-IsValid multi round state v

      went_on :
          (result : Option Bool)
          → (sync_once codec py validate_client multi round state).1 ≡ result
          → IsValid py
              (run_forever codec py validate_client multi rounds
                (sync_once codec py validate_client multi round state).0).0
          → IsValid py (run_forever codec py validate_client multi (round ∷ rounds) state).0
      went_on none e rest = rw (e, run_forever) once
      went_on (some b) e rest = rw (e, run_forever) rest
