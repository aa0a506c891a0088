-- ===== src/Security/Signatures/Tests.antt =====
-- A webhook signature (voclyp/security.py) made under two secrets and checked under the second.
use voclyp_dev.Prelude.{
  ◌+◌, ◌-◌, ◌≡◌, refl, true, not, ◌&&◌, none, some, [], ◌∷◌, map, arith, any, absent, length, Text,
  text_eq,
}
use voclyp_dev.Prelude.Int.{pos, negsuc}
use voclyp_dev.Security.Signatures.{
  comma, Signer, webhook_mac, sign_webhook, too_far, verify_webhook_signature,
  sign_webhook-verify_webhook_signature,
}

abbrev hmac : Text → Text → Text
hmac k t = (97 + length k) ∷ (97 + length t) ∷ []

abbrev signer : Signer
signer = record {
  hmac = hmac;
  str = λ n. elim n [ pos d ↦ (48 + d) ∷ [] | negsuc d ↦ 45 ∷ (49 + d) ∷ [] ];
  int = λ t. elim t [ [] ↦ none | d ∷ rest ↦ some (pos (d - 48)) ];
}

hmac-listable : (k t : Text) → absent comma (hmac k t) ≡ true
hmac-listable k t = ground arith

abbrev old_secret : Text
old_secret = 111 ∷ []

abbrev new_secret : Text
new_secret = 110 ∷ 101 ∷ []

abbrev body : Text
body = 123 ∷ 125 ∷ []

accepted :
    verify_webhook_signature signer 10 61 old_secret
      (sign_webhook signer new_secret (pos 5) body (old_secret ∷ []))
      body
      300
    ≡ true
unfolding verify_webhook_signature sign_webhook webhook_mac too_far
accepted = refl

sign_webhook-verify_webhook_signature_example :
    verify_webhook_signature signer 10 61 old_secret
      (sign_webhook signer new_secret (pos 5) body (old_secret ∷ []))
      (0 ∷ body)
      300
    ≡ (not (too_far 10 61 (pos 5) 300)
        && any
            (text_eq (webhook_mac signer old_secret (pos 5) (0 ∷ body)))
            (map (λ k. webhook_mac signer k (pos 5) body) (new_secret ∷ old_secret ∷ [])))
sign_webhook-verify_webhook_signature_example =
    sign_webhook-verify_webhook_signature signer 10 61 300 new_secret body (pos 5) (old_secret ∷ [])
      old_secret (0 ∷ body) hmac-listable refl refl
