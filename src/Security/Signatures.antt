-- ===== src/Security/Signatures.antt =====
-- The webhook signatures of voclyp/security.py: `sign_webhook` with the secrets of a rotation, and
-- `verify_webhook_signature`. HMAC-SHA-256 in hexadecimal, `str` and `int` of an integer are
-- arguments. The clock is read in ticks, of which a second has `unit`.
mod Tests
use voclyp_dev.Prelude.{
  ℕ, suc, ◌+◌, ◌-◌, ◌*◌, ◌≡◌, refl, sym, ap, ◌∙◌, Bool, true, false, not, ◌&&◌, ◌||◌, Option, none,
  some, List, [], ◌∷◌, ◌++◌, append_assoc, append-nil, map, arith, if◌then◌else◌, ltb, any, All,
  Text, codes, text_eq, absent, partition, split, split-append, split-join, join, partition-append,
}
use voclyp_dev.Prelude.Int.{ℤ, pos, negsuc}

abbrev comma : ℕ
comma = 44

abbrev equals : ℕ
equals = 61

-- "t"
abbrev t_key : Text
t_key = 116 ∷ []

-- "v1"
abbrev v1_key : Text
v1_key = 118 ∷ 49 ∷ []

pub record Signer : Type 0 where
  pub hmac : Text → Text → Text
  pub str : ℤ → Text
  pub int : Text → Option ℤ

-- what the loop over the parts collects
record Parsed : Type 0 where
  ts : Option ℤ
  provided : List Text

module _ (s : Signer) where
  -- `_webhook_mac`
  pub webhook_mac : Text → ℤ → Text → Text
  webhook_mac secret timestamp body = s.hmac secret (s.str timestamp ++ 46 ∷ body)

  abbrev entry : Text → Text
  entry m = v1_key ++ equals ∷ m

  -- `sign_webhook(secret, timestamp, body, *extra_secrets)`
  pub sign_webhook : Text → ℤ → Text → List Text → Text
  sign_webhook secret timestamp body extra_secrets =
      let macs = map (λ k. webhook_mac k timestamp body) (secret ∷ extra_secrets) in
      (t_key ++ equals ∷ s.str timestamp) ++ comma ∷ join comma (map entry macs)

  -- one round of the loop; `none` is a return of False
  read_ts : Option ℤ → Parsed → Option Parsed
  read_ts none found = none
  read_ts (some n) found = some (record found { ts = some n })

  read_part : Option (Text × Text) → Parsed → Option Parsed
  unfolding read_ts
  read_part none found = none
  read_part (some (key, value)) found =
      if text_eq key t_key
      then read_ts (s.int value) found
      else if text_eq key v1_key
      then some (record found { provided = found.provided ++ value ∷ [] })
      else some found

  read_parts : List Text → Parsed → Option Parsed
  read_parts [] found = some found
  read_parts (part ∷ parts) found = elim (read_part (partition equals part) found) [
    | none ↦ none
    | some found' ↦ read_parts parts found'
  ]

-- `abs(time.time() - ts) > tolerance_s`
pub too_far : ℕ → ℕ → ℤ → ℕ → Bool
too_far unit now (pos n) tolerance_s =
    ltb (tolerance_s * unit) ((now - n * unit) + (n * unit - now))
too_far unit now (negsuc n) tolerance_s = ltb (tolerance_s * unit) (now + suc n * unit)

module _ (s : Signer) (unit now : ℕ) where
  check : Text → Text → ℕ → Option (Parsed) → Bool
  unfolding too_far
  check secret body tolerance_s none = false
  check secret body tolerance_s (some found) = elim found.ts [
    | none ↦ false
    | some ts ↦ elim found.provided [
      | [] ↦ false
      | p ∷ provided ↦
          if too_far unit now ts tolerance_s
          then false
          else any (text_eq (webhook_mac s secret ts body)) (p ∷ provided)
    ]
  ]

  -- `verify_webhook_signature(secret, header, body, tolerance_s)`
  pub verify_webhook_signature : Text → Text → Text → ℕ → Bool
  unfolding check read_parts read_part
  verify_webhook_signature secret header body tolerance_s =
      check secret body tolerance_s
        (read_parts s (split comma header) (record { ts = none; provided = [] }))

module _ (s : Signer) where
  read_parts-entries :
      (ms : List Text) (found : Parsed)
      → read_parts s (map (entry s) ms) found
        ≡ some (record found { provided = found.provided ++ ms })
  unfolding read_parts read_part
  read_parts-entries [] found =
      ap (λ l. some (record found { provided = l })) (sym (append-nil found.provided))
  read_parts-entries (m ∷ ms) found =
      read_parts-entries ms (record found { provided = found.provided ++ m ∷ [] })
      ∙ ap (λ l. some (record found { provided = l })) (append_assoc found.provided (m ∷ []) ms)

  read_parts-next :
      (part : Text) (parts : List Text) (found found' : Parsed)
      → read_part s (partition equals part) found ≡ some found'
      → read_parts s (part ∷ parts) found ≡ read_parts s parts found'
  unfolding read_parts
  read_parts-next part parts found found' e = ground arith

  -- The entries of codes without a comma come apart at the commas.
  entries-split :
      (m : Text) (ms : List Text)
      → All (λ t. absent comma t ≡ true) (m ∷ ms)
      → split comma (join comma (map (entry s) (m ∷ ms))) ≡ map (entry s) (m ∷ ms)
  entries-split m ms h = split-join comma (entry s m) (map (entry s) ms) (h.0, clean ms h.1)
    where
      clean :
          (ks : List Text)
          → All (λ t. absent comma t ≡ true) ks
          → All (λ t. absent comma t ≡ true) (map (entry s) ks)
      clean [] k = tt
      clean (k ∷ ks) h = (h.0, clean ks h.1)

  -- The header that was signed parses to its timestamp and its codes.
  sign_webhook-parses :
      (secret body : Text) (ts : ℤ) (extra : List Text)
      → ((k t : Text) → absent comma (s.hmac k t) ≡ true)
      → absent comma (s.str ts) ≡ true
      → s.int (s.str ts) ≡ some ts
      → read_parts s
          (split comma (sign_webhook s secret ts body extra))
          (record { ts = none; provided = [] })
        ≡ some (record {
          ts = some ts;
          provided = map (λ k. webhook_mac s k ts body) (secret ∷ extra);
        })
  unfolding sign_webhook read_parts read_part read_ts webhook_mac
  sign_webhook-parses secret body ts extra hex digits exact =
      let macs = map (λ k. webhook_mac s k ts body) (secret ∷ extra) in
      let stamp = t_key ++ equals ∷ s.str ts in
      let empty : Parsed = record { ts = none; provided = [] } in
      let parts : split comma (sign_webhook s secret ts body extra) ≡ stamp ∷ map (entry s) macs =
        split-append comma stamp (join comma (map (entry s) macs)) digits
        ∙ ap (λ l. stamp ∷ l)
            (entries-split (webhook_mac s secret ts body) _ (hex _ _, clean extra)) in
      let stamped : read_parts s (stamp ∷ map (entry s) macs) empty
          ≡ read_parts s (map (entry s) macs) (record empty { ts = some ts }) =
        read_parts-next stamp (map (entry s) macs) empty (record empty { ts = some ts })
          (ap (λ o. read_ts s o empty) exact) in
      ap (λ l. read_parts s l empty) parts
      ∙ stamped
      ∙ read_parts-entries macs (record empty { ts = some ts })
    where
      clean :
          (ks : List Text)
          → All (λ t. absent comma t ≡ true) (map (λ k. webhook_mac s k ts body) ks)
      clean [] = tt
      clean (k ∷ ks) = (hex _ _, clean ks)

  -- Where the codes and the printed timestamp have no comma, and `int` reads what `str` printed, a
  -- header that was signed with some secrets is accepted, for any secret and any body, exactly if
  -- the timestamp is within the tolerance and the code of that body under that secret is one of the
  -- codes that were signed.
  pub sign_webhook-verify_webhook_signature :
      (unit now tolerance_s : ℕ) (secret body : Text) (ts : ℤ) (extra : List Text)
      (secret' body' : Text)
      → ((k t : Text) → absent comma (s.hmac k t) ≡ true)
      → absent comma (s.str ts) ≡ true
      → s.int (s.str ts) ≡ some ts
      → verify_webhook_signature s unit now secret'
          (sign_webhook s secret ts body extra)
          body'
          tolerance_s
        ≡ (not (too_far unit now ts tolerance_s)
            && any
                (text_eq (webhook_mac s secret' ts body'))
                (map (λ k. webhook_mac s k ts body) (secret ∷ extra)))
  unfolding verify_webhook_signature check
  sign_webhook-verify_webhook_signature unit now tolerance_s secret body ts extra secret' body' hex
        digits exact =
      ap (check s unit now secret' body' tolerance_s)
        (sign_webhook-parses secret body ts extra hex digits exact)
      ∙ ground arith
