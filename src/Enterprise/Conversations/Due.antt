-- ===== src/Enterprise/Conversations/Due.antt =====
-- What the queries of the erasure workers select (voclyp/enterprise/store.py).
use voclyp_dev.Prelude.{
  ℕ, ◌≡◌, Bool, true, [], ◌∷◌, All, All-append, All-take, All-order_by, select-All,
}
use voclyp_dev.Enterprise.Conversations.{
  Conversation, Schemas, per_schema, due_erasures, erasure_due,
}

per_schema-All :
    (p : Conversation → Bool) (key : Conversation → ℕ) (limit : ℕ) (schemas : Schemas)
    → All (λ c. p c ≡ true) (per_schema p key limit schemas)
unfolding per_schema
per_schema-All p key limit [] = tt
per_schema-All p key limit (t ∷ schemas) =
    All-append _ _ _ (All-take _ limit _ (All-order_by _ key _ (select-All p t)))
      (per_schema-All p key limit schemas)

pub due_erasures-due :
    (now limit : ℕ) (schemas : Schemas)
    → All (λ c. erasure_due now c ≡ true) (due_erasures now limit schemas)
unfolding due_erasures
due_erasures-due now limit schemas = All-take _ limit _ (per_schema-All _ _ limit schemas)
