-- ===== src/Audit/Tests.antt =====
-- The audit log (voclyp/store.py) with two entries. The digest keeps every character and moves it
-- above the separator.
use voclyp_dev.Prelude.{◌+◌, ◌≡◌, refl, arith, All, some, [], ◌∷◌, map, select, Text, ◌⊎◌}
use voclyp_dev.Security.HashChain.{Collision, IsClean}
use voclyp_dev.Audit.{AuditLog, init, audit, of_tenant}
use voclyp_dev.Audit.Chain.{
  Written, begun, appended, Written-verifies, covered, CleanEntry, chain_determined,
}

abbrev digest : Text → Text
digest t = map (λ c. c + 32) t

digest-IsClean : (a : Text) → IsClean (digest a)
digest-IsClean [] = refl
digest-IsClean (c ∷ a) = ground (arith, digest-IsClean a)

abbrev tenant : Text
tenant = 116 ∷ []

abbrev logged : AuditLog
logged = audit digest (49 ∷ []) tenant (some (99 ∷ [])) (101 ∷ []) (100 ∷ []) init

logged-Written : Written digest logged
logged-Written = appended (49 ∷ []) tenant (some (99 ∷ [])) (101 ∷ []) (100 ∷ []) begun

logged_clean :
    All (CleanEntry digest digest-IsClean tenant) (select (of_tenant tenant) logged.entries)
unfolding audit
logged_clean = ((refl, (refl, (refl, (refl, (refl, tt))))), tt)

chain_determined_example :
    (map (covered digest digest-IsClean tenant) (select (of_tenant tenant) logged.entries)
      ≡ map (covered digest digest-IsClean tenant) (select (of_tenant tenant) logged.entries))
    ⊎ Collision digest
chain_determined_example =
    chain_determined digest digest-IsClean tenant logged logged logged_clean logged_clean
      (Written-verifies digest logged-Written tenant)
      (Written-verifies digest logged-Written tenant) refl refl
