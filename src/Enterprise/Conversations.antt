-- ===== src/Enterprise/Conversations.antt =====
-- The conversations table of `LocalStore` (voclyp/enterprise/store.py): one database file for each
-- tenant schema, so a list of tables, searched in the order in which they were opened. Clock times
-- are numbers in the order of their ISO texts; each method runs under the store's lock.

pub mod Laws
pub mod Due
pub mod Columns
use voclyp_dev.Prelude.{
  ℕ, zero, suc, String, Bool, true, false, not, ◌&&◌, ◌||◌, Option, none, some, List, [], ◌∷◌, ◌++◌,
  if◌then◌else◌, ltb, leb, is_some, str_eq, find, select, update, order_by, take, concat, Text,
}
use voclyp_dev.Enterprise.Extraction.{Extraction}
use voclyp_dev.Enterprise.States.{State, consent_logged, error_purged, terminal, legal}

-- the texts that are stored in `error_detail`
pub data ErrorDetail : Type 0 where
  no_detail force_purged erased_before_dispatching : ErrorDetail
  purged_from : State → ErrorDetail
  asr_failed extraction_failed : Text → ErrorDetail

-- `detail or "force-purged (orphan)"`
pub or_default : ErrorDetail → ErrorDetail
or_default no_detail = force_purged
or_default detail = detail

-- the columns of `showroom_conversations` that the workers here read and write
pub record Conversation : Type 0 where
  pub id : String
  pub tenant_id : String
  pub store_id : String
  pub consent_log_id : String
  pub audio_sha256 : Text
  pub s3_key : String
  pub state : State
  pub error_detail : ErrorDetail
  pub agent_id : String
  pub transcript_codemix : Option Text
  pub transcript_english : Option Text
  pub detected_languages : List Text
  pub duration_ms : Option ℕ
  pub asr_path : Option String
  pub extraction : Option Extraction
  pub extraction_confidence : Option ℕ
  pub requires_human_verification : Bool
  pub verified_by : Option String
  pub verified_at : Option ℕ
  pub erase_after : ℕ
  pub erased_at : Option ℕ
  pub created_at : ℕ
  pub updated_at : ℕ

abbrev pub Table : Type 0
Table = List Conversation

-- `_conns`, a database file each
abbrev pub Schemas : Type 0
Schemas = List Table

-- an update that returned, or raised IllegalTransition
pub data Outcome : Type 0 where
  updated : Schemas → Outcome
  illegal_transition : Outcome

abbrev pub has_id : String → Conversation → Bool
has_id id c = str_eq c.id id

behind : Table → Outcome → Outcome
behind t (updated schemas) = updated (t ∷ schemas)
behind t illegal_transition = illegal_transition

-- the assignment of the columns once the row is found
abbrev pub assign : ℕ → State → (Conversation → Conversation) → Conversation → Conversation
assign now state fields c = let c' = fields c in record c' { state = state; updated_at = now }

write_row :
    ℕ → String → State → (Conversation → Conversation) → Table → Schemas → Conversation → Outcome
write_row now id state fields t schemas row =
    if legal row.state state
    then updated (update (has_id id) (assign now state fields) t ∷ schemas)
    else illegal_transition

-- `update_conversation(id, state=state, **fields)`, which `set_state` calls; `fields` assigns the
-- other columns. An unknown id changes nothing.
unfoldable pub set_state : ℕ → String → State → (Conversation → Conversation) → Schemas → Outcome
unfolding behind write_row
set_state now id state fields [] = updated []
set_state now id state fields (t ∷ schemas) = elim (find (has_id id) t) [
  | none ↦ behind t (set_state now id state fields schemas)
  | some row ↦ write_row now id state fields t schemas row
]

unfoldable pub mark_error_purged : ℕ → String → ErrorDetail → Schemas → Outcome
unfolding or_default
mark_error_purged now id detail schemas =
    set_state now id error_purged
      (λ c. record c { erased_at = some now; error_detail = or_default detail }) schemas

-- the WHERE clauses
abbrev pub erasure_due : ℕ → Conversation → Bool
erasure_due now c = not (is_some c.erased_at) && leb c.erase_after now && not (terminal c.state)

abbrev pub is_orphan : ℕ → Conversation → Bool
is_orphan cutoff c = not (terminal c.state) && ltb c.created_at cutoff

per_schema : (Conversation → Bool) → (Conversation → ℕ) → ℕ → Schemas → List Conversation
per_schema p key limit [] = []
per_schema p key limit (t ∷ schemas) =
    take limit (order_by key (select p t)) ++ per_schema p key limit schemas

unfoldable pub due_erasures : ℕ → ℕ → Schemas → List Conversation
unfolding per_schema
due_erasures now limit schemas =
    take limit (per_schema (erasure_due now) Conversation.erase_after limit schemas)

pub due_orphans : ℕ → ℕ → Schemas → List Conversation
unfolding per_schema
due_orphans cutoff limit schemas =
    take limit (per_schema (is_orphan cutoff) Conversation.created_at limit schemas)

-- `get_conversation(id)`
unfoldable pub get_conversation : String → Schemas → Option Conversation
get_conversation id [] = none
get_conversation id (t ∷ schemas) = elim (find (has_id id) t) [
  | none ↦ get_conversation id schemas
  | some row ↦ some row
]

-- `insert_conversation(row)` into the table of the tenant's schema, which stands at `place`;
-- `_conn_for_tenant` opens it when it is not open, after the others
unfoldable pub insert_conversation : ℕ → Conversation → Schemas → Schemas
insert_conversation place row [] = (row ∷ []) ∷ []
insert_conversation zero row (t ∷ schemas) = (t ++ row ∷ []) ∷ schemas
insert_conversation (suc place) row (t ∷ schemas) = t ∷ insert_conversation place row schemas

-- `get_conversation(id, tenant_id)`, in the table of the tenant's schema
pub get_conversation_of : String → String → Table → Option Conversation
get_conversation_of tenant_id id t = find (λ c. has_id id c && str_eq c.tenant_id tenant_id) t

-- `update_conversation(id, **fields)` without a state among the fields
unfoldable pub update_fields : ℕ → String → (Conversation → Conversation) → Schemas → Schemas
update_fields now id fields [] = []
update_fields now id fields (t ∷ schemas) =
    let assigned =
      update (has_id id) (λ c. let c' = fields c in record c' { updated_at = now }) t in
    elim (find (has_id id) t) [
      | none ↦ t ∷ update_fields now id fields schemas
      | some row ↦ assigned ∷ schemas
    ]

-- `pending_verifications(tenant_id, agent_id)` on the tenant's table; an empty agent is no filter
pub pending_verifications : String → String → Table → List Conversation
pending_verifications tenant_id agent_id t =
    select
      (λ c.
        str_eq c.tenant_id tenant_id
        && c.requires_human_verification
        && not (is_some c.verified_at)
        && (str_eq agent_id "" || str_eq c.agent_id agent_id))
      t
