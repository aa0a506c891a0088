-- ===== src/Ingestion/Again.antt =====
-- A repeated upload is recognised by its reference (voclyp/ingestion.py, `submit`).
use voclyp_dev.Prelude.{
  true, Bool-cases, ℕ, ◌+◌, String, ◌≡◌, refl, sym, ap, ◌∙◌, inl, inr, Option-cases, false, Option,
  none, some, List, [], ◌∷◌, arith, eq_iff, Text, find,
}
use voclyp_dev.Prelude.Keys.{find-append_none}
use voclyp_dev.Ingestion.Chunks.{chunk}
use voclyp_dev.Ingestion.Tables.{
  Intake, Ref, duplicate_upload_ignored, log_consent, idempotency_set, idempotency_get, write_file,
  tenant_industry, ref_of, log,
}
use voclyp_dev.Ingestion.{
  Settings, Metadata, Call, ok, write_parts, store_upload, known, take_in, in_industry, submit,
  falsy, too_long,
}

write_parts-tenants :
    (path : ℕ → String) (i : ℕ) (chunks : List Text) (s : Intake)
    → (write_parts path i chunks s).0.tenants ≡ s.tenants
unfolding write_parts
write_parts-tenants path i [] s = refl
write_parts-tenants path i (c ∷ chunks) s =
    write_parts-tenants path (i + 1) chunks (write_file (path i) c s)

write_parts-refs :
    (path : ℕ → String) (i : ℕ) (chunks : List Text) (s : Intake)
    → (write_parts path i chunks s).0.refs ≡ s.refs
unfolding write_parts
write_parts-refs path i [] s = refl
write_parts-refs path i (c ∷ chunks) s =
    write_parts-refs path (i + 1) chunks (write_file (path i) c s)

idempotency_get-set :
    (t r c : String) (s : Intake)
    → idempotency_get t r s ≡ none
    → idempotency_get t r (idempotency_set t r c s) ≡ some c
unfolding idempotency_get idempotency_set
idempotency_get-set t r c s h = elim (Option-cases (find (ref_of t r) s.refs)) [
  | inr (x, old) ↦ absurd (ground arith)
  | inl new ↦
      let there =
        find-append_none (ref_of t r) s.refs
          (record { tenant_id = t; client_ref = r; conversation_id = c }) new
          (ground (arith, eq_iff t t, eq_iff r r)) in
      ground (arith, new, there)
]

same_refs :
    (t r : String) (a b : Intake) → a.refs ≡ b.refs → idempotency_get t r a ≡ idempotency_get t r b
unfolding idempotency_get
same_refs t r a b h =
    ap
      (λ (refs : List Ref). elim (find (ref_of t r) refs) as (λ _. Option String) [
        | none ↦ none
        | some row ↦ some row.conversation_id
      ])
      h

module _ (settings : Settings) (call : Call) (tenant_id : String) (audio : Text)
    (m : Metadata) where
  again :
      (industry : String) (s : Intake) (id : String)
      → falsy m.client_ref ≡ false
      → falsy id ≡ false
      → tenant_industry tenant_id s ≡ some industry
      → idempotency_get tenant_id m.client_ref s ≡ some id
      → too_long settings m.agent_id ≡ false
      → too_long settings m.store_id ≡ false
      → too_long settings m.customer_name ≡ false
      → too_long settings m.client_ref ≡ false
      → in_industry settings call tenant_id audio m (tenant_industry tenant_id s) s
        ≡ ok (log (duplicate_upload_ignored tenant_id id m.client_ref) s) id
  unfolding in_industry known take_in
  again industry s id named filled there seen a b c d =
      ap (λ o. in_industry settings call tenant_id audio m o s) there
      ∙ rw (in_industry, a, b, c, d, named) (rw (seen, take_in) (rw filled refl))

  tenants-store_upload :
      (industry : String) (s : Intake)
      → tenant_industry tenant_id (store_upload settings call tenant_id audio m industry s)
        ≡ tenant_industry tenant_id s
  unfolding store_upload tenant_industry idempotency_set log_consent
  tenants-store_upload industry s = ground (
    arith,
    write_parts-tenants call.part_path 0 (chunk call.is_letterless settings.chunk_bytes audio) s,
  )

  -- The references after an upload that names one.
  refs-store_upload :
      (industry : String) (s : Intake)
      → falsy m.client_ref ≡ false
      → (store_upload settings call tenant_id audio m industry s).refs
        ≡ (idempotency_set tenant_id m.client_ref call.conversation_id s).refs
  unfolding store_upload log_consent idempotency_set
  refs-store_upload industry s named = ground (
    arith,
    write_parts-refs call.part_path 0 (chunk call.is_letterless settings.chunk_bytes audio) s,
  )

  known-store_upload :
      (industry : String) (s : Intake)
      → falsy m.client_ref ≡ false
      → idempotency_get tenant_id m.client_ref s ≡ none
      → idempotency_get tenant_id m.client_ref
          (store_upload settings call tenant_id audio m industry s)
        ≡ some call.conversation_id
  known-store_upload industry s named new =
      same_refs tenant_id m.client_ref _ _ (refs-store_upload industry s named)
      ∙ idempotency_get-set tenant_id m.client_ref call.conversation_id s new

  in_industry-made :
      (o : Option String) (s s' : Intake) (id : String)
      → falsy m.client_ref ≡ false
      → idempotency_get tenant_id m.client_ref s ≡ none
      → in_industry settings call tenant_id audio m o s ≡ ok s' id
      → (industry : String) × (o ≡ some industry)
        × (s' ≡ store_upload settings call tenant_id audio m industry s)
        × (id ≡ call.conversation_id)
        × (too_long settings m.agent_id ≡ false)
        × (too_long settings m.store_id ≡ false)
        × (too_long settings m.customer_name ≡ false)
        × (too_long settings m.client_ref ≡ false)
  unfolding in_industry known take_in
  in_industry-made none s s' id named new h = cc
  in_industry-made (some industry) s s' id named new h = (
    industry,
    refl,
    ground arith,
    ground arith,
    ground arith,
    ground arith,
    ground arith,
    ground arith,
  )

-- When an upload with a reference was accepted as a new one, under an id that is not empty, the same
-- upload sent again is answered with the same id, and nothing is stored or queued but an audit
-- entry.
pub submit-again :
    (settings : Settings) (call call' : Call) (tenant_id : String) (audio : Text) (m : Metadata)
    (s s' : Intake) (id : String)
    → falsy m.client_ref ≡ false
    → falsy call.conversation_id ≡ false
    → idempotency_get tenant_id m.client_ref s ≡ none
    → submit settings call tenant_id audio m s ≡ ok s' id
    → submit settings call' tenant_id audio m s'
      ≡ ok (log (duplicate_upload_ignored tenant_id id m.client_ref) s') id
unfolding submit
submit-again settings call call' tenant_id audio m s s' id named fresh new h =
    let first : in_industry settings call tenant_id audio m (tenant_industry tenant_id s) s
        ≡ ok s' id =
      ground arith in
    let (industry, there, made, own, a, b, c, d) =
      in_industry-made settings call tenant_id audio m (tenant_industry tenant_id s) s s' id named
        new first in
    let same_tenant : tenant_industry tenant_id s' ≡ some industry =
      ap (tenant_industry tenant_id) made
      ∙ (tenants-store_upload settings call tenant_id audio m industry s ∙ there) in
    let seen : idempotency_get tenant_id m.client_ref s' ≡ some id =
      ap (idempotency_get tenant_id m.client_ref) made
      ∙ (known-store_upload settings call tenant_id audio m industry s named new
          ∙ ap some (sym own)) in
    let second : in_industry settings call' tenant_id audio m (tenant_industry tenant_id s') s'
        ≡ ok (log (duplicate_upload_ignored tenant_id id m.client_ref) s') id =
      again settings call' tenant_id audio m industry s' id named (rw own fresh) same_tenant seen a
        b c d in
    ground (arith, second)

-- No upload without consent is accepted.
pub submit-consented :
    (settings : Settings) (call : Call) (tenant_id : String) (audio : Text) (m : Metadata)
    (s s' : Intake) (id : String)
    → submit settings call tenant_id audio m s ≡ ok s' id
    → m.captured ≡ true
unfolding submit
submit-consented settings call tenant_id audio m s s' id h = elim (Bool-cases m.captured) [
  | inl captured ↦ captured
  | inr missing ↦ ground (arith, missing)
]
