-- ===== src/Enterprise/Erasure/Run.antt =====
-- What a run of the erasure worker and of the orphan sweep leaves behind
-- (voclyp/enterprise/erasure).
use voclyp_dev.Prelude.{
  ℕ, ◌+◌, String, ◌≡◌, refl, Bool, Bool-cases, inl, inr, true, false, some, arith, if◌then◌else◌,
  str_eq,
}
use voclyp_dev.Enterprise.States.{State, purged, error_purged, terminal, legal}
use voclyp_dev.Enterprise.Conversations.{
  Conversation, Schemas, updated, mark_error_purged, get_conversation, ErrorDetail,
  erased_before_dispatching, or_default, assign,
}
use voclyp_dev.Enterprise.Conversations.Laws.{Replaces, set_state-legal, set_state-illegal}
use voclyp_dev.Enterprise.Erasure.{Depot, remove, Report, purge, count_purge, erase_one}

-- The conversation is in a terminal state, with the time of its erasure, and every other
-- conversation is as it was.
pub record Settled (now : ℕ) (conv : Conversation) (s s' : Schemas) : Type 0 where
  pub row : Conversation
  pub stored :
      (j : String)
      → get_conversation j s' ≡ (if str_eq conv.id j then some row else get_conversation j s)
  pub ended : terminal row.state ≡ true
  pub stamped : row.erased_at ≡ some now

live_state : (s : State) → terminal s ≡ false → legal s error_purged ≡ true
unfolding legal
live_state s h = ground arith

module _ (now : ℕ) (conv : Conversation) where
  -- Settling from what an update replaces.
  settled :
      (s s' : Schemas) (row : Conversation)
      → terminal row.state ≡ true
      → row.erased_at ≡ some now
      → Replaces conv.id row s s'
      → Settled now conv s s'
  settled s s' row t e r = record { row = row; stored = r.get; ended = t; stamped = e }

  error_purged-settles :
      (detail : ErrorDetail) (s : Schemas)
      → get_conversation conv.id s ≡ some conv
      → terminal conv.state ≡ false
      → (s' : Schemas) × (mark_error_purged now conv.id detail s ≡ updated s')
        × Settled now conv s s'
  unfolding mark_error_purged
  error_purged-settles detail s h live =
      let fields : Conversation → Conversation =
        λ c. record c { erased_at = some now; error_detail = or_default detail } in
      let (s', e, r) =
        set_state-legal now conv.id error_purged fields (λ c. refl) s conv h
          (live_state conv.state live) in
      (s', e, settled s s' (assign now error_purged fields conv) refl refl r)

  purge-settles :
      (raises : String → Bool) (s : Schemas)
      → get_conversation conv.id s ≡ some conv
      → terminal conv.state ≡ false
      → (s' : Schemas) × (purge raises now conv s ≡ some s') × Settled now conv s s'
  unfolding purge
  purge-settles raises s h live = elim (Bool-cases (legal conv.state purged)) [
    | inl l ↦
        let fields : Conversation → Conversation = λ c. record c { erased_at = some now } in
        let (s', e, r) = set_state-legal now conv.id purged fields (λ c. refl) s conv h l in
        (s', rw (purge, e) refl, settled s s' (assign now purged fields conv) refl refl r)
    | inr l ↦
        let (s', e, st) = error_purged-settles erased_before_dispatching s h live in
        (
          s',
          rw
              (
                purge,
                set_state-illegal now conv.id purged (λ c. record c { erased_at = some now })
                    (λ c. refl) s conv h l,
                e,
              )
              refl,
          st,
        )
  ]

module _ (raises : String → Bool) (now : ℕ) where
  -- A stored conversation that is not terminal and whose audio can be deleted is settled in the
  -- round that takes it: its audio is removed, its row ends in a terminal state with the time of
  -- the erasure, no other conversation is touched, and the round counts one erasure.
  pub erase_one-settles :
      (conv : Conversation) (d : Depot) (r : Report)
      → get_conversation conv.id d.schemas ≡ some conv
      → terminal conv.state ≡ false
      → raises conv.s3_key ≡ false
      → (d' : Depot) × (erase_one raises now conv d r ≡ (d', record r { erased = r.erased + 1 }))
        × (d'.objects ≡ remove conv.s3_key d.objects)
        × Settled now conv d.schemas d'.schemas
  unfolding erase_one count_purge
  erase_one-settles conv d r h live quiet =
      let (s', e, st) = purge-settles now conv raises d.schemas h live in
      (
        record { schemas = s'; objects = remove conv.s3_key d.objects },
        rw (erase_one, quiet, e) refl,
        refl,
        st,
      )
