-- ===== src/Enterprise/Conversations/Laws.antt =====
-- What an update of a conversation changes (voclyp/enterprise/store.py).
use mathlib.Core.Option
use voclyp_dev.Prelude.{
  ℕ, String, ◌≡◌, refl, Option-cases, inl, inr, true, false, none, some, [], ◌∷◌, arith,
  if◌then◌else◌, str_eq, eq_iff, find, update,
}
use voclyp_dev.Enterprise.States.{State, legal}
use voclyp_dev.Enterprise.Conversations.{
  Conversation, Table, Schemas, updated, illegal_transition, has_id, behind, assign, write_row,
  set_state, get_conversation, update_fields,
}

module _ (id : String) (f : Conversation → Conversation)
    (same : (c : Conversation) → (f c).id ≡ c.id) where
  find-update_id :
      (j : String) (t : Table)
      → find (has_id j) (update (has_id id) f t)
        ≡ (if str_eq id j then Option.map f (find (has_id j) t) else find (has_id j) t)
  find-update_id j [] = ground arith
  find-update_id j (c ∷ t) =
      ground (arith, eq_iff id j, eq_iff c.id id, eq_iff c.id j, find-update_id j t, same c)

find-other :
    (id j : String) (t : Table)
    → find (has_id id) t ≡ none
    → str_eq id j ≡ true
    → find (has_id j) t ≡ none
find-other id j t h e = rw ((eq_iff id j).0 e) at h

-- After the update, the row of `id` is what `assign` makes of it, and all other rows are the same.
pub record Replaces (id : String) (c : Conversation) (s s' : Schemas) : Type 0 where
  pub get :
      (j : String) → get_conversation j s' ≡ (if str_eq id j then some c else get_conversation j s)

module _ (now : ℕ) (id : String) (state : State) (fields : Conversation → Conversation)
    (same : (c : Conversation) → (fields c).id ≡ c.id) where
  set_state-absent :
      (t : Table) (s s' : Schemas)
      → find (has_id id) t ≡ none
      → set_state now id state fields s ≡ updated s'
      → set_state now id state fields (t ∷ s) ≡ updated (t ∷ s')
  unfolding set_state behind
  set_state-absent t s s' a e = rw (set_state, a, e) refl

  set_state-present :
      (t : Table) (s : Schemas) (row : Conversation)
      → find (has_id id) t ≡ some row
      → legal row.state state ≡ true
      → set_state now id state fields (t ∷ s)
        ≡ updated (update (has_id id) (assign now state fields) t ∷ s)
  unfolding set_state write_row
  set_state-present t s row a e = rw (set_state, a, e) refl

  -- When the conversation is stored and the new state is legal, the update goes through and replaces
  -- that row alone; the other assignments keep the id.
  pub set_state-legal :
      (s : Schemas) (c : Conversation)
      → get_conversation id s ≡ some c
      → legal c.state state ≡ true
      → (s' : Schemas) × (set_state now id state fields s ≡ updated s')
        × Replaces id (assign now state fields c) s s'
  unfolding get_conversation set_state behind write_row
  set_state-legal [] c h l = cc
  set_state-legal (t ∷ s) c h l = elim (Option-cases (find (has_id id) t)) [
    | inl absent ↦
        let (s', e, r) = set_state-legal s c (ground arith) l in
        (
          t ∷ s',
          set_state-absent t s s' absent e,
          record { get = λ j. ground (arith, r.get j, find-other id j t absent) },
        )
    | inr (row, present) ↦
        let same_row : row ≡ c = ground arith in
        (
          update (has_id id) (assign now state fields) t ∷ s,
          set_state-present t s row present (rw same_row l),
          record {
            get = λ j.
                ground (arith, find-update_id id (assign now state fields) same j t, eq_iff id j);
          },
        )
  ]

  -- An update to a state that is not legal raises.
  pub set_state-illegal :
      (s : Schemas) (c : Conversation)
      → get_conversation id s ≡ some c
      → legal c.state state ≡ false
      → set_state now id state fields s ≡ illegal_transition
  unfolding get_conversation set_state
  set_state-illegal [] c h l = cc
  set_state-illegal (t ∷ s) c h l = ground (arith, set_state-illegal s c)

  -- An update of other columns than the state replaces the row alike.
  pub update_fields-get :
      (s : Schemas) (c : Conversation)
      → get_conversation id s ≡ some c
      → get_conversation id (update_fields now id fields s)
        ≡ some (let c' = fields c in record c' { updated_at = now })
  unfolding get_conversation update_fields
  update_fields-get [] c h = cc
  update_fields-get (t ∷ s) c h = elim (Option-cases (find (has_id id) t)) [
    | inl absent ↦ ground (arith, absent, update_fields-get s c (ground arith))
    | inr (row, present) ↦ ground (
      arith,
      find-update_id id (λ c. let c' = fields c in record c' { updated_at = now }) same id t,
      eq_iff id id,
    )
  ]
