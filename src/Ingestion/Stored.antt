-- ===== src/Ingestion/Stored.antt =====
-- An upload that was accepted is stored whole, and queued (voclyp/ingestion.py, `submit`).
use voclyp_dev.Prelude.{
  ℕ, ◌+◌, ◌<◌, String, ◌≡◌, refl, ap, ◌∙◌, true, Option, none, some, List, [], ◌∷◌, ◌++◌, arith,
  if◌then◌else◌, eq_iff, Text, concat, lookup, lookup-insert, subst,
}
use voclyp_dev.Queue.{Job, JobQueue, pending, enqueue}
use voclyp_dev.Ingestion.Chunks.{chunk}
use voclyp_dev.Ingestion.Chunks.Laws.{chunk-Covers}
use voclyp_dev.Ingestion.Tables.{Intake, log_consent, idempotency_set, write_file, tenant_industry}
use voclyp_dev.Ingestion.{
  Settings, Metadata, Call, ok, write_parts, payload_of, store_upload, known, take_in, in_industry,
  submit, falsy,
}

abbrev joined : Text → Option Text → Option Text
joined bytes none = none
joined bytes (some rest) = some (bytes ++ rest)

-- The contents of the paths, one behind the other, where each is there.
abbrev pub read_all : List String → List (String × Text) → Option Text
read_all [] files = some []
read_all (p ∷ paths) files = elim (lookup p files) [
  | none ↦ none
  | some bytes ↦ joined bytes (read_all paths files)
]

module _ (path : ℕ → String) (apart : (i j : ℕ) → path i ≡ path j → i ≡ j) where
  write_parts-before :
      (i j : ℕ) (chunks : List Text) (s : Intake)
      → j < i
      → lookup (path j) (write_parts path i chunks s).0.files ≡ lookup (path j) s.files
  unfolding write_parts
  write_parts-before i j [] s h = refl
  write_parts-before i j (c ∷ chunks) s h =
      write_parts-before (i + 1) j chunks (write_file (path i) c s) (omega arith)
      ∙ ground
          (arith, eq_iff (path i) (path j), apart i j, lookup-insert (path i) (path j) c s.files)

  write_parts-read_all :
      (i : ℕ) (chunks : List Text) (s : Intake)
      → let (s', paths) = write_parts path i chunks s in
        read_all paths s'.files ≡ some (concat chunks)
  unfolding write_parts
  write_parts-read_all i [] s = refl
  write_parts-read_all i (c ∷ chunks) s =
      let first : lookup (path i)
            (write_parts path (i + 1) chunks (write_file (path i) c s)).0.files
          ≡ some c =
        write_parts-before (i + 1) i chunks (write_file (path i) c s) (omega arith)
        ∙ (lookup-insert (path i) (path i) c s.files
            ∙ rw ((eq_iff (path i) (path i)).1 refl) refl) in
      ground (arith, first, write_parts-read_all (i + 1) chunks (write_file (path i) c s))

write_parts-queue :
    (path : ℕ → String) (i : ℕ) (chunks : List Text) (s : Intake)
    → (write_parts path i chunks s).0.queue ≡ s.queue
unfolding write_parts
write_parts-queue path i [] s = refl
write_parts-queue path i (c ∷ chunks) s =
    write_parts-queue path (i + 1) chunks (write_file (path i) c s)

-- The upload is in `s'`: a new pending job at the end of the queue names paths whose contents, put
-- together, are the upload.
pub record Stored (tenant_id id : String) (audio : Text) (s s' : Intake) : Type 0 where
  pub job : Job
  pub queued : s'.queue.jobs ≡ s.queue.jobs ++ job ∷ []
  pub of_tenant : job.tenant_id ≡ tenant_id
  pub of_conversation : job.conversation_id ≡ id
  pub waits : job.status ≡ pending
  pub whole : read_all job.payload.audio_paths s'.files ≡ some audio

module _ (settings : Settings) (call : Call) (tenant_id : String) (audio : Text) (m : Metadata)
    (apart : (i j : ℕ) → call.part_path i ≡ call.part_path j → i ≡ j)
    (room : 0 < settings.chunk_bytes) where
  keyed : Intake → Intake
  keyed s =
      if falsy m.client_ref
      then s
      else idempotency_set tenant_id m.client_ref call.conversation_id s

  keyed-files : (s : Intake) → (keyed s).files ≡ s.files
  unfolding keyed idempotency_set
  keyed-files s = ground arith

  keyed-queue : (s : Intake) → (keyed s).queue ≡ s.queue
  unfolding keyed idempotency_set
  keyed-queue s = ground arith

  store_upload-Stored :
      (industry : String) (s : Intake)
      → Stored tenant_id call.conversation_id audio s
          (store_upload settings call tenant_id audio m industry s)
  unfolding store_upload enqueue payload_of log_consent keyed
  store_upload-Stored industry s =
      let chunks = chunk call.is_letterless settings.chunk_bytes audio in
      let written = (write_parts call.part_path 0 chunks s).0 in
      let consented = log_consent call.now tenant_id call.conversation_id m.agent_id true written in
      let same_queue : (keyed consented).queue ≡ s.queue =
        keyed-queue consented ∙ write_parts-queue call.part_path 0 chunks s in
      let new_job : Job = record {
        id = (keyed consented).queue.last_id + 1;
        tenant_id = tenant_id;
        conversation_id = call.conversation_id;
        payload =
            payload_of settings call tenant_id audio m industry
              (write_parts call.part_path 0 chunks s).1;
        status = pending;
        attempts = 0;
        created_at = call.now;
        updated_at = call.now;
      } in
      record {
        job = new_job;
        queued = ap (λ (q : JobQueue). q.jobs ++ new_job ∷ []) same_queue;
        of_tenant = refl;
        of_conversation = refl;
        waits = refl;
        whole =
            ap (read_all (write_parts call.part_path 0 chunks s).1) (keyed-files consented)
            ∙ (write_parts-read_all call.part_path apart 0 chunks s
                ∙ ap some (chunk-Covers call.is_letterless settings.chunk_bytes audio room).0);
      }

  in_industry-Stored :
      (industry : Option String) (s s' : Intake) (id : String)
      → known settings call tenant_id audio m s ≡ none
      → in_industry settings call tenant_id audio m industry s ≡ ok s' id
      → (id ≡ call.conversation_id) × Stored tenant_id call.conversation_id audio s s'
  unfolding in_industry take_in
  in_industry-Stored none s s' id new h = cc
  in_industry-Stored (some industry) s s' id new h =
      let made : ok (store_upload settings call tenant_id audio m industry s) call.conversation_id
          ≡ ok s' id =
        ground (arith, new) in
      let same : store_upload settings call tenant_id audio m industry s ≡ s' = cc in
      (
        cc,
        subst (Stored tenant_id call.conversation_id audio s) same (store_upload-Stored industry s),
      )

  -- When the paths of the parts differ and the chunk limit is above zero, an upload that is accepted
  -- and is no repetition had its consent captured, and is there whole: a new pending job of its
  -- conversation stands at the end of the queue, and the contents of its paths, put together, are
  -- the upload.
  pub submit-Stored :
      (s s' : Intake) (id : String)
      → known settings call tenant_id audio m s ≡ none
      → submit settings call tenant_id audio m s ≡ ok s' id
      → (m.captured ≡ true)
        × (id ≡ call.conversation_id)
        × Stored tenant_id call.conversation_id audio s s'
  unfolding submit
  submit-Stored s s' id new h =
      let rest : in_industry settings call tenant_id audio m (tenant_industry tenant_id s) s
          ≡ ok s' id =
        ground arith in
      let (same, stored) = in_industry-Stored (tenant_industry tenant_id s) s s' id new rest in
      (ground arith, same, stored)
