-- ===== src/Enterprise/Consent/Race.antt =====
-- Two calls of `ConsentService.record` (voclyp/enterprise/consent/service.py) of which the second
-- reads the last hash before the first has inserted its row: `last_consent_entry_hash` and
-- `insert_consent_log` take the store's lock separately.
use voclyp_dev.Prelude.{
  ℕ, ◌≤◌, ◌≡◌, refl, sym, ◌∙◌, subst, Bool, true, false, Bool-cases, inl, inr, ◌⊎◌, none, some, [],
  ◌∷◌, ◌++◌, String, arith, All-append, All-weaken, Text, text_eq, text_eq_refl, text_eq→eq,
}
use voclyp_dev.Security.HashChain.{chain_hash, chain_hash-previous, Collision}
use voclyp_dev.Audit.{genesis}
use voclyp_dev.Enterprise.Consent.{
  ConsentLog, Notice, Artifact, Ledger, of_tenant, rows_of, last_consent_entry_hash,
  insert_consent_log, consented, consent_row, prepare, verify_from, verify_consent_chain,
}
use voclyp_dev.Enterprise.Consent.Chain.{
  end_hash, IsPast, rows_of-append, last_hash-end_hash, verify_from-append,
}

module _ (sha256 : Text → Text) (dumps : Artifact → Text) (iso : ℕ → Text)
    (isdigit : ℕ → Bool) where
  -- The first bad row after rows that verify is the one that does not link to them.
  verify_from-broken :
      (prev : Text) (rows : Ledger) (r : ConsentLog)
      → verify_from sha256 dumps iso isdigit prev rows ≡ none
      → text_eq
          (chain_hash sha256
            (end_hash prev rows)
            (r.tenant_id ∷ r.session_id ∷ r.artifact_sha256 ∷ iso r.captured_at ∷ []))
          r.entry_hash
        ≡ false
      → verify_from sha256 dumps iso isdigit prev (rows ++ r ∷ []) ≡ some r.id
  unfolding verify_from
  verify_from-broken prev [] r v h = rw h refl
  verify_from-broken prev (s ∷ rows) r v h = ground (arith, verify_from-broken s.entry_hash rows r)

  -- The hash that `record` links its row to.
  abbrev linked_hash : Text → ConsentLog → Text
  linked_hash prev r =
      chain_hash sha256 prev
        (r.tenant_id ∷ r.session_id ∷ r.artifact_sha256 ∷ iso r.captured_at ∷ [])

  end_hash-append :
      (prev : Text) (rows : Ledger) (r : ConsentLog) → end_hash prev (rows ++ r ∷ []) ≡ r.entry_hash
  end_hash-append prev [] r = refl
  end_hash-append prev (s ∷ rows) r = end_hash-append s.entry_hash rows r

  -- The row says of itself what `record` put into it.
  record Prepared (prev : Text) (t : Text) (now : ℕ) (r : ConsentLog) : Type 0 where
    own : of_tenant t r ≡ true
    time : r.captured_at ≡ now
    linked : linked_hash prev r ≡ r.entry_hash

  prepare-Prepared :
      (id : String) (now : ℕ) (n : Notice) (ledger : Ledger) {r : ConsentLog}
      → prepare sha256 dumps iso isdigit id now n ledger ≡ consented r
      → Prepared (last_consent_entry_hash n.tenant_id ledger) n.tenant_id now r
  unfolding prepare consent_row
  prepare-Prepared id now n ledger {r} e =
      let row =
        consent_row sha256 dumps iso isdigit id now (last_consent_entry_hash n.tenant_id ledger)
          n in
      let same : row ≡ r = ground arith in
      subst (Prepared (last_consent_entry_hash n.tenant_id ledger) n.tenant_id now) same
        (record { own = text_eq_refl n.tenant_id; time = refl; linked = refl })

  -- Two calls of one tenant, at times that do not step back, read the last hash of a ledger that
  -- verifies, and then insert their rows one after the other. Then verification names the second
  -- row as bad, unless the first row's hash is the hash that it was linked to, or SHA-256 has a
  -- collision.
  pub insert-fork :
      (id id' : String) (now later : ℕ) (n m : Notice) (ledger : Ledger) {r s : ConsentLog}
      → m.tenant_id ≡ n.tenant_id
      → now ≤ later
      → IsPast now ledger
      → verify_consent_chain sha256 dumps iso isdigit n.tenant_id ledger ≡ none
      → prepare sha256 dumps iso isdigit id now n ledger ≡ consented r
      → prepare sha256 dumps iso isdigit id' later m ledger ≡ consented s
      → (verify_consent_chain sha256 dumps iso isdigit n.tenant_id
            (insert_consent_log s (insert_consent_log r ledger))
          ≡ some s.id)
        ⊎ (r.entry_hash ≡ last_consent_entry_hash n.tenant_id ledger)
        ⊎ Collision sha256
  unfolding verify_consent_chain insert_consent_log
  insert-fork id id' now later n m ledger {r} {s} same le past v er es =
      let t = n.tenant_id in
      let prev = last_consent_entry_hash t ledger in
      let rows = rows_of t ledger in
      let first : Prepared prev t now r = prepare-Prepared id now n ledger er in
      let second : Prepared prev t later s =
        subst (λ u. Prepared (last_consent_entry_hash u ledger) u later s) same
          (prepare-Prepared id' later m ledger es) in
      let past_r : IsPast r.captured_at ledger = rw first.time past in
      let past_s : IsPast s.captured_at (ledger ++ r ∷ []) = rw second.time (
        All-append _ ledger (r ∷ []) (All-weaken ledger (λ c h. omega (arith, h, le)) past)
          (rw first.time le, tt)) in
      let rows_r : rows_of t (ledger ++ r ∷ []) ≡ rows ++ r ∷ [] =
        rows_of-append t ledger r past_r first.own in
      let rows_s : rows_of t ((ledger ++ r ∷ []) ++ s ∷ []) ≡ (rows ++ r ∷ []) ++ s ∷ [] =
        rows_of-append t (ledger ++ r ∷ []) s past_s second.own ∙ rw rows_r refl in
      let verified =
        verify_from-append sha256 dumps iso isdigit genesis rows r v
          (rw (sym (last_hash-end_hash t ledger)) first.linked) in
      let last = end_hash-append genesis rows r in
      elim (Bool-cases (text_eq (linked_hash r.entry_hash s) s.entry_hash)) [
        | inr other ↦
            inl (rw rows_s (verify_from-broken genesis (rows ++ r ∷ []) s verified (rw last other)))
        | inl equal ↦ inr (
            chain_hash-previous sha256 r.entry_hash prev _
              (text_eq→eq _ _ equal ∙ sym second.linked))
      ]
