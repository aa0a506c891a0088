-- ===== src/Enterprise/Conversations/Columns.antt =====
-- The columns of a conversation that no update assigns: the tenant, the consent and the audio's key
-- (voclyp/enterprise/store.py).
use voclyp_dev.Prelude.{
  ℕ, zero, suc, String, ◌≡◌, refl, Option-cases, ◌⊎◌, inl, inr, Bool, true, ◌||◌, [], ◌∷◌, arith,
  find, any, any-append, any-update, any-weaken,
}
use voclyp_dev.Enterprise.States.{State}
use voclyp_dev.Enterprise.Conversations.{
  Conversation, Table, Schemas, Outcome, updated, illegal_transition, has_id, behind, assign,
  write_row, set_state, insert_conversation,
}

-- The two rows have the same tenant, consent and audio.
abbrev pub Same : Conversation → Conversation → Type 0
Same c d =
    (d.tenant_id ≡ c.tenant_id) × (d.consent_log_id ≡ c.consent_log_id) × (d.s3_key ≡ c.s3_key)

-- The test reads these columns alone.
abbrev pub IsSteady : (Conversation → Bool) → Type 0
IsSteady p = (c d : Conversation) → Same c d → p d ≡ p c

-- Some conversation passes the test.
abbrev pub any_row : (Conversation → Bool) → Schemas → Bool
any_row p schemas = any (any p) schemas

pub Outcome-cases : (o : Outcome) → ((s : Schemas) × (o ≡ updated s)) ⊎ (o ≡ illegal_transition)
Outcome-cases (updated s) = inl (s, refl)
Outcome-cases illegal_transition = inr refl

module _ (p : Conversation → Bool) where
  any_row-insert_conversation :
      (place : ℕ) (row : Conversation) (s : Schemas)
      → any_row p (insert_conversation place row s) ≡ (any_row p s || p row)
  unfolding insert_conversation
  any_row-insert_conversation place row [] = ground arith
  any_row-insert_conversation zero row (t ∷ s) = ground (arith, any-append p t row)
  any_row-insert_conversation (suc place) row (t ∷ s) =
      ground (arith, any_row-insert_conversation place row s)

  pub any_row-kept :
      (place : ℕ) (row : Conversation) (s : Schemas)
      → any_row p s ≡ true
      → any_row p (insert_conversation place row s) ≡ true
  any_row-kept place row s h = ground (arith, any_row-insert_conversation place row s)

  pub any_row-new :
      (place : ℕ) (row : Conversation) (s : Schemas)
      → p row ≡ true
      → any_row p (insert_conversation place row s) ≡ true
  any_row-new place row s h = ground (arith, any_row-insert_conversation place row s)

  any_row-behind :
      (t : Table) (s s' : Schemas) (o : Outcome)
      → behind t o ≡ updated s'
      → ((r : Schemas) → o ≡ updated r → any_row p r ≡ any_row p s)
      → any_row p s' ≡ any_row p (t ∷ s)
  unfolding behind
  any_row-behind t s s' (updated r) e h = ground (arith, h r refl)
  any_row-behind t s s' illegal_transition e h = cc

  any_row-write_row :
      (now : ℕ) (id : String) (state : State) (fields : Conversation → Conversation)
      → IsSteady p
      → ((c : Conversation) → Same c (fields c))
      → (t : Table) (s s' : Schemas) (row : Conversation)
      → write_row now id state fields t s row ≡ updated s'
      → any_row p s' ≡ any_row p (t ∷ s)
  unfolding write_row
  any_row-write_row now id state fields steady same t s s' row e =
      let same_any =
        any-update p (has_id id) (assign now state fields) t
          (λ c. steady c (assign now state fields c) (same c)) in
      ground (arith, same_any)

  -- An update that assigns none of the columns keeps whether some conversation passes the test.
  pub any_row-set_state :
      (now : ℕ) (id : String) (state : State) (fields : Conversation → Conversation)
      → IsSteady p
      → ((c : Conversation) → Same c (fields c))
      → (s s' : Schemas) → set_state now id state fields s ≡ updated s'
      → any_row p s' ≡ any_row p s
  unfolding set_state behind write_row
  any_row-set_state now id state fields steady same [] s' e = ground arith
  any_row-set_state now id state fields steady same (t ∷ s) s' e =
      elim (Option-cases (find (has_id id) t)) [
        | inl absent ↦
            any_row-behind t s s' (set_state now id state fields s) (ground arith)
              (λ r k. any_row-set_state now id state fields steady same s r k)
        | inr (row, present) ↦
            any_row-write_row now id state fields steady same t s s' row (ground arith)
      ]

pub any_row-weaken :
    (p q : Conversation → Bool)
    → ((c : Conversation) → p c ≡ true → q c ≡ true)
    → (s : Schemas) → any_row p s ≡ true
    → any_row q s ≡ true
any_row-weaken p q h s e = any-weaken (any p) (any q) s (λ t k. any-weaken p q t h k) e
