-- ===== src/Enterprise/Erasure/Columns.antt =====
-- What the erasure worker and the orphan sweep keep: whether some conversation passes a test on its
-- tenant, its consent and its audio's key; and they add no audio (voclyp/enterprise/erasure).
use voclyp_dev.Prelude.{
  ℕ, String, ◌≡◌, refl, subst, ◌∙◌, Bool, Bool-cases, Option-cases, inl, inr, true, Option, none,
  some, List, [], ◌∷◌, if◌then◌else◌, arith, All, All-delete, All-weaken, str_eq,
}
use voclyp_dev.Enterprise.States.{State, purged, error_purged}
use voclyp_dev.Enterprise.Conversations.{
  Conversation, ErrorDetail, Schemas, updated, set_state, mark_error_purged,
  erased_before_dispatching, purged_from, or_default, due_erasures, due_orphans,
}
use voclyp_dev.Enterprise.Conversations.Columns.{
  Outcome-cases, IsSteady, any_row, any_row-set_state,
}
use voclyp_dev.Enterprise.Erasure.{
  Depot, remove, Report, purge, count_purge, erase_one, erase_all, run_once, sweep_conversation,
  sweep_all, sweep_local,
}

-- The test of a conversation that an audio's key calls for.
module _ (p : String → Conversation → Bool) (steady : (key : String) → IsSteady (p key)) where
  -- Each audio object has a conversation that passes its test.
  abbrev pub IsCovered : Depot → Type 0
  IsCovered d = All (λ key. any_row (p key) d.schemas ≡ true) d.objects

  abbrev Kept : Schemas → Schemas → Type 0
  Kept s s' = (key : String) → any_row (p key) s' ≡ any_row (p key) s

  pub set_state-covers :
      (now : ℕ) (id : String) (state : State) (fields : Conversation → Conversation)
      → ((c : Conversation)
          → ((fields c).tenant_id ≡ c.tenant_id)
            × ((fields c).consent_log_id ≡ c.consent_log_id)
            × ((fields c).s3_key ≡ c.s3_key))
      → (s s' : Schemas) → set_state now id state fields s ≡ updated s'
      → Kept s s'
  set_state-covers now id state fields same s s' e key =
      any_row-set_state (p key) now id state fields (steady key) same s s' e

  mark-covers :
      (now : ℕ) (id : String) (detail : ErrorDetail) (s s' : Schemas)
      → mark_error_purged now id detail s ≡ updated s'
      → Kept s s'
  unfolding mark_error_purged
  mark-covers now id detail s s' e =
      set_state-covers now id error_purged
        (λ c. record c { erased_at = some now; error_detail = or_default detail })
        (λ c. (refl, refl, refl)) s s' e

  covered_by :
      (s s' : Schemas) (objects : List String)
      → Kept s s'
      → All (λ key. any_row (p key) s ≡ true) objects
      → All (λ key. any_row (p key) s' ≡ true) objects
  covered_by s s' objects k h = All-weaken objects (λ key e. k key ∙ e) h

  module _ (raises : String → Bool) (now : ℕ) where
    purge-covers :
        (conv : Conversation) (s s' : Schemas) → purge raises now conv s ≡ some s' → Kept s s'
    unfolding purge
    purge-covers conv s s' e =
        let fields : Conversation → Conversation = λ c. record c { erased_at = some now } in
        elim (Outcome-cases (set_state now conv.id purged fields s)) [
          | inl (r, moved) ↦
              set_state-covers now conv.id purged fields (λ c. (refl, refl, refl)) s s'
                (ground (arith, moved))
          | inr illegal ↦
              elim (Outcome-cases (mark_error_purged now conv.id erased_before_dispatching s)) [
                | inl (r, marked) ↦
                    mark-covers now conv.id erased_before_dispatching s s'
                      (ground (arith, illegal, marked))
                | inr raised ↦ absurd (ground (arith, illegal, raised))
              ]
        ]

    count_purge-covers :
        (o : Option Schemas) (objects : List String) (s : Schemas) (r : Report)
        → ((s' : Schemas) → o ≡ some s' → Kept s s')
        → All (λ key. any_row (p key) s ≡ true) objects
        → IsCovered (count_purge raises now o objects s r).0
    unfolding count_purge
    count_purge-covers none objects s r k h = h
    count_purge-covers (some s') objects s r k h = covered_by s s' objects (k s' refl) h

    erase_one-covers :
        (conv : Conversation) (d : Depot) (r : Report)
        → IsCovered d
        → IsCovered (erase_one raises now conv d r).0
    unfolding erase_one
    erase_one-covers conv d r h = elim (Bool-cases (raises conv.s3_key)) [
      | inl loud ↦ rw loud h
      | inr quiet ↦ rw quiet (
          count_purge-covers (purge raises now conv d.schemas) (remove conv.s3_key d.objects)
            d.schemas r (λ s' e. purge-covers conv d.schemas s' e)
            (All-delete _ (λ k. str_eq k conv.s3_key) d.objects h))
    ]

    erase_all-covers :
        (due : List Conversation) (d : Depot) (r : Report)
        → IsCovered d
        → IsCovered (erase_all raises now due d r).0
    unfolding erase_all
    erase_all-covers [] d r h = h
    erase_all-covers (conv ∷ due) d r h =
        let (d', r') = erase_one raises now conv d r in
        erase_all-covers due d' r' (erase_one-covers conv d r h)

    -- A run of the erasure worker keeps it.
    pub run_once-covers :
        (limit : ℕ) (d : Depot) → IsCovered d → IsCovered (run_once raises now limit d).0
    unfolding run_once
    run_once-covers limit d h = erase_all-covers (due_erasures now limit d.schemas) d _ h

    sweep_conversation-covers :
        (conv : Conversation) (d d' : Depot)
        → sweep_conversation raises now conv d ≡ some d'
        → IsCovered d
        → IsCovered d'
    unfolding sweep_conversation
    sweep_conversation-covers conv d d' e h =
        let objects = if raises conv.s3_key then d.objects else remove conv.s3_key d.objects in
        let left : All (λ key. any_row (p key) d.schemas ≡ true) objects =
          elim (Bool-cases (raises conv.s3_key)) [
            | inl loud ↦ rw loud h
            | inr quiet ↦ rw quiet (All-delete _ (λ k. str_eq k conv.s3_key) d.objects h)
          ] in
        elim (Outcome-cases (mark_error_purged now conv.id (purged_from conv.state) d.schemas)) [
          | inl (s', marked) ↦
              let same : ◌≡◌ {A = Depot} (record { schemas = s'; objects = objects }) d' =
                ground (arith, marked) in
              subst IsCovered same (
                covered_by d.schemas s' objects
                  (mark-covers now conv.id (purged_from conv.state) d.schemas s' marked) left)
          | inr raised ↦ absurd (ground (arith, raised))
        ]

    sweep_all-covers :
        (orphans : List Conversation) (d d' : Depot)
        → sweep_all raises now orphans d ≡ some d'
        → IsCovered d
        → IsCovered d'
    unfolding sweep_all
    sweep_all-covers [] d d' e h = let same : d ≡ d' = ground arith in subst IsCovered same h
    sweep_all-covers (conv ∷ orphans) d d' e h =
        elim (Option-cases (sweep_conversation raises now conv d)) [
          | inl raised ↦ absurd (ground (arith, raised))
          | inr (m, swept) ↦
              sweep_all-covers orphans m d' (ground (arith, swept))
                (sweep_conversation-covers conv d m swept h)
        ]

    -- A sweep that ends keeps it.
    pub sweep_local-covers :
        (cutoff : ℕ) (d d' : Depot)
        → sweep_local raises now cutoff d ≡ some d'
        → IsCovered d
        → IsCovered d'
    unfolding sweep_local
    sweep_local-covers cutoff d d' e h =
        sweep_all-covers (due_orphans cutoff 100 d.schemas) d d' e h
