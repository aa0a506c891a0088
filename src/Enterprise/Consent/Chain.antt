-- ===== src/Enterprise/Consent/Chain.antt =====
-- The consent ledger verifies after any consents that are recorded one at a time under a clock that
-- does not step back (voclyp/enterprise/consent/service.py and `verify_consent_chain`).
use voclyp_dev.Prelude.{
  ℕ, ◌≤◌, ◌≡◌, refl, subst, Bool, true, false, Bool-cases, inl, inr, Option, none, some, [], ◌∷◌,
  ◌++◌, String, arith, All, All-append, All-weaken, All-select, select, select-append,
  order_by-append, Text, text_eq, text_eq_refl, text_eq→eq,
}
use voclyp_dev.Security.HashChain.{chain_hash}
use voclyp_dev.Audit.{genesis}
use voclyp_dev.Enterprise.Consent.{
  ConsentLog, Notice, Artifact, Ledger, of_tenant, rows_of, newest, last_consent_entry_hash,
  insert_consent_log, consent_row, prepare, record_consent, verify_from, verify_consent_chain,
}

-- The hash of the last of the rows.
abbrev pub end_hash : Text → Ledger → Text
end_hash prev [] = prev
end_hash prev (r ∷ rows) = end_hash r.entry_hash rows

abbrev hash_or : Text → Option ConsentLog → Text
hash_or prev none = prev
hash_or prev (some r) = r.entry_hash

end_hash-newest : (prev : Text) (rows : Ledger) → end_hash prev rows ≡ hash_or prev (newest rows)
end_hash-newest prev [] = refl
end_hash-newest prev (r ∷ rows) = ground (arith, end_hash-newest r.entry_hash rows)

pub last_hash-end_hash :
    (t : Text) (ledger : Ledger)
    → last_consent_entry_hash t ledger ≡ end_hash genesis (rows_of t ledger)
unfolding last_consent_entry_hash
last_hash-end_hash t ledger = ground (arith, end_hash-newest genesis (rows_of t ledger))

-- No row was captured after `now`.
abbrev pub IsPast : ℕ → Ledger → Type 0
IsPast now ledger = All (λ r. r.captured_at ≤ now) ledger

-- A row that is not captured before the others is the tenant's last.
pub rows_of-append :
    (t : Text) (ledger : Ledger) (r : ConsentLog)
    → IsPast r.captured_at ledger
    → of_tenant t r ≡ true
    → rows_of t (ledger ++ r ∷ []) ≡ rows_of t ledger ++ r ∷ []
rows_of-append t ledger r past own = rw select-append (
    rw own (
      order_by-append ConsentLog.captured_at (select (of_tenant t) ledger) r
        (All-select _ (of_tenant t) ledger past)))

module _ (sha256 : Text → Text) (dumps : Artifact → Text) (iso : ℕ → Text)
    (isdigit : ℕ → Bool) where
  pub verify_from-append :
      (prev : Text) (rows : Ledger) (r : ConsentLog)
      → verify_from sha256 dumps iso isdigit prev rows ≡ none
      → chain_hash sha256
          (end_hash prev rows)
          (r.tenant_id ∷ r.session_id ∷ r.artifact_sha256 ∷ iso r.captured_at ∷ [])
        ≡ r.entry_hash
      → verify_from sha256 dumps iso isdigit prev (rows ++ r ∷ []) ≡ none
  unfolding verify_from
  verify_from-append prev [] r v h = rw h (rw (text_eq_refl r.entry_hash) refl)
  verify_from-append prev (s ∷ rows) r v h = ground (arith, verify_from-append s.entry_hash rows r)

  insert-own :
      (id : String) (now : ℕ) (n : Notice) (ledger : Ledger)
      → IsPast now ledger
      → verify_consent_chain sha256 dumps iso isdigit n.tenant_id ledger ≡ none
      → verify_consent_chain sha256 dumps iso isdigit n.tenant_id (
          insert_consent_log
            (consent_row sha256 dumps iso isdigit id now
              (last_consent_entry_hash n.tenant_id ledger)
              n)
            ledger)
        ≡ none
  unfolding verify_consent_chain insert_consent_log consent_row
  insert-own id now n ledger past v =
      let row =
        consent_row sha256 dumps iso isdigit id now (last_consent_entry_hash n.tenant_id ledger)
          n in
      rw (rows_of-append n.tenant_id ledger row past (text_eq_refl n.tenant_id)) (
        verify_from-append genesis (rows_of n.tenant_id ledger) row v
          (rw (last_hash-end_hash n.tenant_id ledger) refl))

  insert-other :
      (t : Text) (id : String) (now : ℕ) (prev : Text) (n : Notice) (ledger : Ledger)
      → text_eq n.tenant_id t ≡ false
      → verify_consent_chain sha256 dumps iso isdigit t ledger ≡ none
      → verify_consent_chain sha256 dumps iso isdigit t
          (insert_consent_log (consent_row sha256 dumps iso isdigit id now prev n) ledger)
        ≡ none
  unfolding verify_consent_chain insert_consent_log consent_row
  insert-other t id now prev n ledger other v = rw select-append (rw other v)

  insert-verifies :
      (t : Text) (id : String) (now : ℕ) (n : Notice) (ledger : Ledger)
      → IsPast now ledger
      → ((u : Text) → verify_consent_chain sha256 dumps iso isdigit u ledger ≡ none)
      → verify_consent_chain sha256 dumps iso isdigit t (
          insert_consent_log
            (consent_row sha256 dumps iso isdigit id now
              (last_consent_entry_hash n.tenant_id ledger)
              n)
            ledger)
        ≡ none
  insert-verifies t id now n ledger past v = elim (Bool-cases (text_eq n.tenant_id t)) [
    | inl same ↦
        subst
          (λ u.
            verify_consent_chain sha256 dumps iso isdigit u (
              insert_consent_log
                (consent_row sha256 dumps iso isdigit id now
                  (last_consent_entry_hash n.tenant_id ledger) n)
                ledger)
            ≡ none)
          (text_eq→eq n.tenant_id t same) (insert-own id now n ledger past (v n.tenant_id))
    | inr other ↦ insert-other t id now _ n ledger other (v t)
  ]

  -- A ledger that was begun empty and written by `record` alone, one call at a time, up to a time
  -- of a clock that did not step back.
  pub data IsRecorded : ℕ → Ledger → Type 0 where
    begun : (now : ℕ) → IsRecorded now []
    recorded :
        (id : String) (before now : ℕ) (n : Notice) {ledger : Ledger}
        → IsRecorded before ledger
        → before ≤ now
        → IsRecorded now (record_consent sha256 dumps iso isdigit id now n ledger).1

  -- What holds of a ledger before `record` and of it with the row that `record` inserts, holds
  -- after.
  after_record :
      (P : Ledger → Type 0) (id : String) (now : ℕ) (n : Notice) (ledger : Ledger)
      → P ledger
      → P (
          insert_consent_log
            (consent_row sha256 dumps iso isdigit id now
              (last_consent_entry_hash n.tenant_id ledger)
              n)
            ledger)
      → P (record_consent sha256 dumps iso isdigit id now n ledger).1
  unfolding record_consent prepare
  after_record P id now n ledger h k = ground arith

  IsPast-record :
      (id : String) (now : ℕ) (n : Notice) (ledger : Ledger)
      → IsPast now ledger
      → IsPast now (record_consent sha256 dumps iso isdigit id now n ledger).1
  unfolding insert_consent_log consent_row
  IsPast-record id now n ledger past =
      after_record (IsPast now) id now n ledger past (All-append _ ledger _ past (omega arith, tt))

  IsRecorded-IsPast : {now : ℕ} {ledger : Ledger} → IsRecorded now ledger → IsPast now ledger
  IsRecorded-IsPast (begun now) = tt
  IsRecorded-IsPast (recorded id before now n {ledger} w le) =
      IsPast-record id now n ledger
        (All-weaken ledger (λ r h. omega (arith, h, le)) (IsRecorded-IsPast w))

  -- However many consents of whichever tenants were recorded, one call at a time and under a clock
  -- that does not step back, each tenant's chain verifies.
  pub IsRecorded-verify_consent_chain :
      {now : ℕ} {ledger : Ledger}
      → IsRecorded now ledger
      → (t : Text) → verify_consent_chain sha256 dumps iso isdigit t ledger ≡ none
  unfolding verify_consent_chain verify_from
  IsRecorded-verify_consent_chain (begun now) t = refl
  IsRecorded-verify_consent_chain (recorded id before now n {ledger} w le) t =
      after_record (λ l. verify_consent_chain sha256 dumps iso isdigit t l ≡ none) id now n ledger
        (IsRecorded-verify_consent_chain w t)
        (insert-verifies t id now n ledger
          (All-weaken ledger (λ r h. omega (arith, h, le)) (IsRecorded-IsPast w))
          (IsRecorded-verify_consent_chain w))
