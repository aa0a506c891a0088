-- ===== src/Audit/Chain.antt =====
-- The audit chain verifies after any appends, and a chain that verifies is determined by its last
-- hash (voclyp/store.py, `audit` and `verify_audit_chain`).
use voclyp_dev.Prelude.{
  ◌≡◌, refl, sym, ◌∙◌, subst, Bool-cases, inl, inr, ◌⊎◌, false, Option, none, some, List, [], ◌∷◌,
  ◌++◌, arith, All, length, find_last, select, select-append, Text, text_eq, text_eq_refl,
  text_eq→eq, map,
}
use voclyp_dev.Security.HashChain.{
  chain_hash, chain_hash-injective, chain_hash-IsClean, IsClean, Collision,
}
use voclyp_dev.Audit.{
  Entry, AuditLog, init, genesis, fields, of_tenant, last_hash, audit, verify_from,
  verify_audit_chain,
}

-- The last hash of a tenant's rows.
abbrev pub end_hash : Text → List Entry → Text
end_hash prev [] = prev
end_hash prev (e ∷ rows) = end_hash e.entry_hash rows

end_hash-append :
    (prev : Text) (rows : List Entry) (e : Entry) → end_hash prev (rows ++ e ∷ []) ≡ e.entry_hash
end_hash-append prev [] e = refl
end_hash-append prev (r ∷ rows) e = end_hash-append r.entry_hash rows e

-- The row that an append chains to is the tenant's last.
end_hash-select :
    (t : Text) (rows : List Entry) (prev : Text)
    → end_hash prev (select (of_tenant t) rows)
      ≡ elim (find_last (of_tenant t) rows) [ none ↦ prev | some e ↦ e.entry_hash ]
end_hash-select t [] prev = refl
end_hash-select t (e ∷ rows) prev =
    ground (arith, end_hash-select t rows prev, end_hash-select t rows e.entry_hash)

module _ (sha256 : Text → Text) where
  verify_from-append :
      (t prev : Text) (rows : List Entry) (e : Entry)
      → verify_from sha256 t prev rows ≡ none
      → e.prev_hash ≡ end_hash prev rows
      → e.entry_hash
        ≡ chain_hash sha256 (end_hash prev rows) (fields t e.conversation_id e.event e.detail e.ts)
      → verify_from sha256 t prev (rows ++ e ∷ []) ≡ none
  unfolding verify_from
  verify_from-append t prev [] e v hp he = rw (hp, he) (simp text_eq_refl)
  verify_from-append t prev (r ∷ rows) e v hp he =
      ground (arith, verify_from-append t r.entry_hash rows e)

  audit_self :
      (t ts : Text) (c : Option Text) (event detail : Text) (log : AuditLog)
      → verify_audit_chain sha256 t log ≡ none
      → verify_audit_chain sha256 t (audit sha256 ts t c event detail log) ≡ none
  unfolding verify_audit_chain audit
  audit_self t ts c event detail log h =
      let linked = end_hash-select t log.entries genesis in
      rw select-append (
        rw (text_eq_refl t) (
          verify_from-append t genesis (select (of_tenant t) log.entries) _ h (sym linked)
            (rw linked)))

  audit_other :
      (t ts u : Text) (c : Option Text) (event detail : Text) (log : AuditLog)
      → text_eq u t ≡ false
      → verify_audit_chain sha256 t log ≡ none
      → verify_audit_chain sha256 t (audit sha256 ts u c event detail log) ≡ none
  unfolding verify_audit_chain audit
  audit_other t ts u c event detail log other h = rw select-append (rw other h)

  audit-verifies :
      (t ts u : Text) (c : Option Text) (event detail : Text) (log : AuditLog)
      → verify_audit_chain sha256 t log ≡ none
      → verify_audit_chain sha256 t (audit sha256 ts u c event detail log) ≡ none
  audit-verifies t ts u c event detail log h = elim (Bool-cases (text_eq u t)) [
    | inl same ↦
        subst (λ u. verify_audit_chain sha256 t (audit sha256 ts u c event detail log) ≡ none)
          (sym (text_eq→eq u t same)) (audit_self t ts c event detail log h)
    | inr other ↦ audit_other t ts u c event detail log other h
  ]

  -- A log that was begun empty and written by `audit` alone.
  pub data Written : AuditLog → Type 0 where
    begun : Written init
    appended :
        (ts u : Text) (c : Option Text) (event detail : Text) {log : AuditLog}
        → Written log
        → Written (audit sha256 ts u c event detail log)

  -- However many entries of whichever tenants were appended, each tenant's chain verifies.
  pub Written-verifies :
      {log : AuditLog} → Written log → (t : Text) → verify_audit_chain sha256 t log ≡ none
  unfolding verify_audit_chain verify_from
  Written-verifies begun t = refl
  Written-verifies (appended ts u c event detail {log} w) t =
      audit-verifies t ts u c event detail log (Written-verifies w t)

  verify_from-links :
      (t prev : Text) (e : Entry) (rows : List Entry)
      → verify_from sha256 t prev (e ∷ rows) ≡ none
      → (e.entry_hash ≡ chain_hash sha256 prev (fields t e.conversation_id e.event e.detail e.ts))
        × (verify_from sha256 t e.entry_hash rows ≡ none)
  unfolding verify_from
  verify_from-links t prev e rows v =
      elim (Bool-cases (
        text_eq e.entry_hash
          (chain_hash sha256 prev (fields t e.conversation_id e.event e.detail e.ts)))) [
            | inl same ↦ (text_eq→eq _ _ same, ground arith)
            | inr other ↦ absurd (ground arith)
          ]

  module _ (hex : (a : Text) → IsClean (sha256 a)) (t : Text) where
    -- None of the texts that the entry's hash covers holds the separator.
    abbrev pub CleanEntry : Entry → Type 0
    CleanEntry e = All IsClean (fields t e.conversation_id e.event e.detail e.ts)

    abbrev pub covered : Entry → List Text
    covered e = fields t e.conversation_id e.event e.detail e.ts

    determined_from :
        (p q : Text) (xs ys : List Entry)
        → IsClean p
        → IsClean q
        → All CleanEntry xs
        → All CleanEntry ys
        → verify_from sha256 t p xs ≡ none
        → verify_from sha256 t q ys ≡ none
        → length xs ≡ length ys
        → end_hash p xs ≡ end_hash q ys
        → ((p ≡ q) × (map covered xs ≡ map covered ys)) ⊎ Collision sha256
    determined_from p q [] [] hp hq hx hy vx vy n e = inl (e, refl)
    determined_from p q [] (y ∷ ys) hp hq hx hy vx vy n e = absurd (omega arith)
    determined_from p q (x ∷ xs) [] hp hq hx hy vx vy n e = absurd (omega arith)
    determined_from p q (x ∷ xs) (y ∷ ys) hp hq hx hy vx vy n e =
        let (hash_x, rest_x) = verify_from-links t p x xs vx in
        let (hash_y, rest_y) = verify_from-links t q y ys vy in
        elim (determined_from x.entry_hash y.entry_hash xs ys
          (rw hash_x (chain_hash-IsClean sha256 hex p (covered x)))
          (rw hash_y (chain_hash-IsClean sha256 hex q (covered y))) hx.1 hy.1 rest_x rest_y
          (omega arith) e) [
            | inr c ↦ inr c
            | inl (same, tails) ↦
                elim (chain_hash-injective sha256 p q (covered x) (covered y) hp hq hx.0 hy.0 refl
                  (sym hash_x ∙ same ∙ hash_y)) [
                    | inr c ↦ inr c
                    | inl (prevs, heads) ↦ inl (prevs, cc)
                  ]
          ]

    genesis-IsClean : IsClean genesis
    unfolding genesis
    genesis-IsClean = refl

    last_hash-select :
        (log : AuditLog) → end_hash genesis (select (of_tenant t) log.entries) ≡ last_hash t log
    unfolding last_hash
    last_hash-select log = ground (arith, end_hash-select t log.entries genesis)

    -- If the digests and the covered texts do not hold the separator, then two logs in which the
    -- tenant's chain verifies, with as many entries of the tenant and the same last hash, agree in
    -- what every entry of the tenant says (its conversation, event, detail and time), or else
    -- SHA-256 has a collision. So no past entry can be altered under a last hash that is known.
    pub chain_determined :
        (a b : AuditLog)
        → All CleanEntry (select (of_tenant t) a.entries)
        → All CleanEntry (select (of_tenant t) b.entries)
        → verify_audit_chain sha256 t a ≡ none
        → verify_audit_chain sha256 t b ≡ none
        → length (select (of_tenant t) a.entries) ≡ length (select (of_tenant t) b.entries)
        → last_hash t a ≡ last_hash t b
        → (map covered (select (of_tenant t) a.entries)
            ≡ map covered (select (of_tenant t) b.entries))
          ⊎ Collision sha256
    unfolding verify_audit_chain
    chain_determined a b ca cb va vb n e =
        elim (determined_from genesis genesis (select (of_tenant t) a.entries)
          (select (of_tenant t) b.entries) genesis-IsClean genesis-IsClean ca cb va vb n
          (last_hash-select a ∙ e ∙ sym (last_hash-select b))) [
            | inr c ↦ inr c
            | inl (prevs, entries) ↦ inl entries
          ]
