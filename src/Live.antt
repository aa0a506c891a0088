-- ===== src/Live.antt =====
-- The live sessions of voclyp/store.py: the visits that are streamed from the field, and their
-- chunks of audio.
pub mod Manager
use voclyp_dev.Prelude.{
  ℕ, ◌+◌, String, Bool, true, false, ◌&&◌, ◌||◌, ◌==◌, Option, none, some, List, [], ◌∷◌, ◌++◌,
  if◌then◌else◌, is_some, str_eq, find, select, update, delete, order_by,
}

-- the values of `status`
pub data Status : Type 0 where
  identity active processing complete : Status

-- where a name or a phone number is from
pub data Source : Type 0 where
  manual asr : Source

-- a row of `live_sessions`
pub record Session : Type 0 where
  pub tenant_id : String
  pub session_id : String
  pub store_id : String
  pub agent_id : String
  pub status : Status
  pub customer_name : Option String
  pub customer_phone : Option String
  pub name_source : Option Source
  pub phone_source : Option Source
  pub partial_transcript : String
  pub consent_at : Option ℕ
  pub conversation_id : Option String
  pub started_at : ℕ
  pub ended_at : Option ℕ

-- a row of `session_chunks`
pub record Chunk : Type 0 where
  pub tenant_id : String
  pub session_id : String
  pub seq : ℕ
  pub chunk_path : String
  pub received_at : ℕ

pub record Visits : Type 0 where
  pub sessions : List Session
  pub chunks : List Chunk

-- the primary key
abbrev pub at : String → String → Session → Bool
at tenant_id session_id s = str_eq s.tenant_id tenant_id && str_eq s.session_id session_id

-- `none` is the database's refusal of a second row
pub create_live_session : ℕ → String → String → String → String → Visits → Option Visits
create_live_session now tenant_id session_id store_id agent_id v =
    let row : Session = record {
      tenant_id = tenant_id;
      session_id = session_id;
      store_id = store_id;
      agent_id = agent_id;
      status = identity;
      customer_name = none;
      customer_phone = none;
      name_source = none;
      phone_source = none;
      partial_transcript = "";
      consent_at = none;
      conversation_id = none;
      started_at = now;
      ended_at = none;
    } in
    if is_some (find (at tenant_id session_id) v.sessions)
    then none
    else some (record v { sessions = v.sessions ++ row ∷ [] })

unfoldable pub get_live_session : String → String → Visits → Option Session
get_live_session tenant_id session_id v = find (at tenant_id session_id) v.sessions

-- the assignments of `update_live_session_customer`
abbrev set_name : Option String → Source → Session → Session
set_name none source s = s
set_name (some name) source s = record s { customer_name = some name; name_source = some source }

abbrev set_phone : Option String → Source → Session → Session
set_phone none source s = s
set_phone (some phone) source s = record s {
  customer_phone = some phone;
  phone_source = some source;
}

unfoldable pub update_live_session_customer :
    String → String → Option String → Option String → Source → Visits → Visits
update_live_session_customer tenant_id session_id name phone source v = record v {
  sessions =
      update (at tenant_id session_id) (λ s. set_phone phone source (set_name name source s))
        v.sessions;
}

unfoldable pub update_live_session_transcript : String → String → String → Visits → Visits
update_live_session_transcript tenant_id session_id text v = record v {
  sessions =
      update (at tenant_id session_id) (λ s. record s { partial_transcript = text }) v.sessions;
}

-- `status in ("complete", "processing")`
abbrev ends : Status → Bool
ends identity = false
ends active = false
ends processing = true
ends complete = true

abbrev set_consent : ℕ → Bool → Session → Session
set_consent now consent s = if consent then record s { consent_at = some now } else s

abbrev set_conversation : Option String → Session → Session
set_conversation none s = s
set_conversation (some id) s = if str_eq id "" then s else record s { conversation_id = some id }

abbrev set_ended : ℕ → Status → Session → Session
set_ended now status s = if ends status then record s { ended_at = some now } else s

abbrev with_status : ℕ → Status → Bool → Option String → Session → Session
with_status now status consent conversation_id s =
    set_ended now status
      (set_conversation conversation_id (set_consent now consent (record s { status = status })))

unfoldable pub set_live_session_status :
    ℕ → String → String → Status → Bool → Option String → Visits → Visits
set_live_session_status now tenant_id session_id status consent conversation_id v = record v {
  sessions =
      update (at tenant_id session_id) (with_status now status consent conversation_id) v.sessions;
}

abbrev is_processing : Status → Bool
is_processing processing = true
is_processing _ = false

abbrev has_conversation : String → Option String → Bool
has_conversation id none = false
has_conversation id (some c) = str_eq c id

pub complete_live_session_for_conversation : ℕ → String → String → Visits → Visits
complete_live_session_for_conversation now tenant_id conversation_id v = record v {
  sessions =
      update
        (λ s.
          str_eq s.tenant_id tenant_id
          && has_conversation conversation_id s.conversation_id
          && is_processing s.status)
        (λ s. record s { status = complete; ended_at = some now }) v.sessions;
}

abbrev chunk_at : String → String → ℕ → Chunk → Bool
chunk_at tenant_id session_id seq c =
    str_eq c.tenant_id tenant_id && str_eq c.session_id session_id && c.seq == seq

-- `INSERT OR REPLACE`
unfoldable pub append_session_chunk : ℕ → String → String → ℕ → String → Visits → Visits
append_session_chunk now tenant_id session_id seq chunk_path v =
    let row : Chunk = record {
      tenant_id = tenant_id;
      session_id = session_id;
      seq = seq;
      chunk_path = chunk_path;
      received_at = now;
    } in
    record v { chunks = delete (chunk_at tenant_id session_id seq) v.chunks ++ row ∷ [] }

pub list_session_chunks : String → String → Visits → List Chunk
list_session_chunks tenant_id session_id v =
    order_by Chunk.seq
      (select (λ c. str_eq c.tenant_id tenant_id && str_eq c.session_id session_id) v.chunks)
