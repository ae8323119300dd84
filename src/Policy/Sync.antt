-- ===== src/Policy/Sync.antt =====
-- src/edge/policy/sync.py. One call of `sync_once` takes what the gateway answers to its requests, the
-- time of the swap and what fails while the files are written.
pub mod Kept
pub mod Started
use Prim.Native.Nat.{ℕ}
use mathlib.Core.Bool.{Bool, true, false, ◌||◌, not}
use mathlib.Core.Option.{Option, none, some}
use mathlib.Core.List.{List, [], ◌∷◌}
use trustmodel_edge.Value.{Value, PyText}
use trustmodel_edge.Policy.Bundle.{AuthorizedClient, EdgePolicy}
use trustmodel_edge.Policy.Disk.{Codec, Disk, Faults}
use trustmodel_edge.Policy.Cache.{PolicyCache, is_warm, replace, replace_all}
use trustmodel_edge.Policy.Client.{
  Reply, Fetched, fetched, not_found, fetch_error, fetch_raised, Active, fetch, fetch_all,
}

pub record Round : Type 0 where
  pub plural : Reply
  pub singular : Reply
  pub now : ℕ
  pub faults : Faults

module _ (codec : Codec) (py : PyText) (validate_client : Value → Option AuthorizedClient) where
  -- The cache and the directory.
  abbrev pub State : Type 0
  State = PolicyCache × Disk codec.Text

  -- `some b` is the returned Boolean, `none` an exception; an exception of the swap is caught.
  abbrev swapped : PolicyCache × Disk codec.Text × Bool → State × Option Bool
  swapped (cache, disk, returned) = ((cache, disk), some returned)

  abbrev pub after_fetch : Round → Fetched EdgePolicy → State → State × Option Bool
  after_fetch round (fetched p) (cache, disk) =
      swapped (replace codec py round.faults round.now disk p)
  after_fetch round not_found state = (state, some false)
  after_fetch round fetch_error state = (state, some false)
  after_fetch round fetch_raised state = (state, none)

  -- The clients of the plural response are dropped.
  abbrev pub after_fetch_all : Round → Fetched Active → State → State × Option Bool
  after_fetch_all round (fetched a) (cache, disk) =
      swapped (replace_all codec py round.faults round.now disk a.policies a.primary_name)
  after_fetch_all round not_found state = (state, some false)
  after_fetch_all round fetch_error state = (state, some false)
  after_fetch_all round fetch_raised state = (state, none)

  unfoldable pub sync_once_singular : Round → State → State × Option Bool
  unfolding fetch replace
  sync_once_singular round state =
      after_fetch round (fetch codec validate_client round.singular) state

  unfoldable pub sync_once_multi : Round → State → State × Option Bool
  unfolding fetch_all replace_all
  sync_once_multi round state =
      after_fetch_all round (fetch_all codec validate_client round.plural round.singular) state

  unfoldable pub sync_once : Bool → Round → State → State × Option Bool
  unfolding sync_once_singular sync_once_multi
  sync_once true round state = sync_once_multi round state
  sync_once false round state = sync_once_singular round state

  -- Whether the start goes on; `false` is RuntimeError or the exception of `sync_once`.
  abbrev pub warmed : Bool → State × Option Bool → State × Bool
  warmed require_success (state, none) = (state, false)
  warmed require_success (state, some true) = (state, true)
  warmed require_success (state, some false) =
      (state, not (require_success || not (is_warm state.0)))

  unfoldable pub warm : Bool → Bool → Round → State → State × Bool
  unfolding sync_once is_warm
  warm require_success multi round state = warmed require_success (sync_once multi round state)

  -- The rounds of `run_forever` until it is cancelled; the exception of a round ends the task.
  unfoldable pub run_forever : Bool → List Round → State → State
  unfolding sync_once
  run_forever multi [] state = state
  run_forever multi (round ∷ rounds) state =
      let (state', result) = sync_once multi round state in
      let rest = run_forever multi rounds state' in elim result [ none ↦ state' | some _ ↦ rest ]
