-- ===== src/Enterprise/Erasure.antt =====
-- voclyp/enterprise/erasure: the erasure worker and the orphan sweep. The audio store is the list
-- of the keys that it holds; which deletions raise is an argument.
pub mod Run
pub mod Accounts
pub mod Columns
use voclyp_dev.Prelude.{
  ℕ, ◌+◌, String, Bool, true, false, not, Option, none, some, List, [], ◌∷◌, if◌then◌else◌, str_eq,
  delete, length, ◌++◌,
}
use voclyp_dev.Enterprise.States.{State, purged, error_purged}
use voclyp_dev.Enterprise.Conversations.{
  Conversation, ErrorDetail, erased_before_dispatching, purged_from, Schemas, Outcome, updated,
  illegal_transition, set_state, mark_error_purged, due_erasures, due_orphans,
}

-- what the workers act on: the store, and the keys of the audio objects
pub record Depot : Type 0 where
  pub schemas : Schemas
  pub objects : List String

-- `audio_store.delete(key)`, where it does not raise
abbrev pub remove : String → List String → List String
remove key objects = delete (λ k. str_eq k key) objects

-- the two counters of `run_once`
pub record Report : Type 0 where
  pub erased : ℕ
  pub errors : ℕ

module _ (raises : String → Bool) (now : ℕ) where
  -- the inner `try` and its handler: `none` is an exception that leaves the handler
  purge : Conversation → Schemas → Option Schemas
  purge conv schemas =
      elim (set_state now conv.id purged (λ c. record c { erased_at = some now }) schemas) [
        | updated schemas' ↦ some schemas'
        | illegal_transition ↦
            elim (mark_error_purged now conv.id erased_before_dispatching schemas) [
              | updated schemas' ↦ some schemas'
              | illegal_transition ↦ none
            ]
      ]

  count_purge : Option Schemas → List String → Schemas → Report → Depot × Report
  count_purge none objects schemas r =
      (record { schemas = schemas; objects = objects }, record r { errors = r.errors + 1 })
  count_purge (some schemas') objects schemas r =
      (record { schemas = schemas'; objects = objects }, record r { erased = r.erased + 1 })

  -- one round of the loop of `run_once`
  pub erase_one : Conversation → Depot → Report → Depot × Report
  unfolding purge count_purge
  erase_one conv d r =
      if raises conv.s3_key
      then (d, record r { errors = r.errors + 1 })
      else count_purge (purge conv d.schemas) (remove conv.s3_key d.objects) d.schemas r

  erase_all : List Conversation → Depot → Report → Depot × Report
  erase_all [] d r = (d, r)
  erase_all (conv ∷ due) d r = let (d', r') = erase_one conv d r in erase_all due d' r'

  -- `ErasureWorker.run_once`
  pub run_once : ℕ → Depot → Depot × Report
  unfolding erase_all
  run_once limit d =
      erase_all (due_erasures now limit d.schemas) d (record { erased = 0; errors = 0 })

  -- one round of the loop of `_sweep_local`; `none` is an exception that stops the sweep
  pub sweep_conversation : Conversation → Depot → Option Depot
  sweep_conversation conv d =
      let objects = if raises conv.s3_key then d.objects else remove conv.s3_key d.objects in
      elim (mark_error_purged now conv.id (purged_from conv.state) d.schemas) [
        | updated schemas ↦ some (record { schemas = schemas; objects = objects })
        | illegal_transition ↦ none
      ]

  sweep_all : List Conversation → Depot → Option Depot
  sweep_all [] d = some d
  sweep_all (conv ∷ orphans) d = elim (sweep_conversation conv d) [
    | none ↦ none
    | some d' ↦ sweep_all orphans d'
  ]

  -- `_sweep_local`
  pub sweep_local : ℕ → Depot → Option Depot
  unfolding sweep_all
  sweep_local cutoff d = sweep_all (due_orphans cutoff 100 d.schemas) d
