-- ===== src/Security/HashChain.antt =====
-- `chain_hash` of voclyp/security.py. Hashing is a parameter: `sha256` takes the characters that
-- are fed to it (their UTF-8 encoding included) to the hexadecimal digest.
use voclyp_dev.Prelude.{
  ℕ, ◌≡◌, refl, ap, true, List, [], ◌∷◌, ◌++◌, append_assoc, append-nil, arith, All, length,
  length-append, Text, absent, append-injective, text_eq, text_eq→eq, text_eq_iff, ◌⊎◌, inl, inr,
  Bool-cases, ◌≢◌,
}

-- the `\x1f` that is fed before each field
abbrev pub separator : ℕ
separator = 31

-- what is fed to the hash after the previous hash
abbrev pub fed : List Text → Text
fed [] = []
fed (f ∷ fields) = separator ∷ (f ++ fed fields)

pub chain_hash : (Text → Text) → Text → List Text → Text
chain_hash sha256 prev_hash fields = sha256 (prev_hash ++ fed fields)

-- A text in which the separator does not occur.
abbrev pub IsClean : Text → Type 0
IsClean t = absent separator t ≡ true

fed-injective :
    (p q : Text) (fs gs : List Text)
    → IsClean p
    → IsClean q
    → All IsClean fs
    → All IsClean gs
    → length fs ≡ length gs
    → p ++ fed fs ≡ q ++ fed gs
    → (p ≡ q) × (fs ≡ gs)
fed-injective p q [] [] hp hq hf hg n e = (cc (append-nil p, append-nil q), refl)
fed-injective p q (f ∷ fs) (g ∷ gs) hp hq hf hg n e =
    let (same, rest) = append-injective separator p (f ++ fed fs) q (g ++ fed gs) hp hq e in
    let (same', rest') = fed-injective f g fs gs hf.0 hg.0 hf.1 hg.1 (omega arith) rest in
    (same, cc)
fed-injective p q [] (g ∷ gs) hp hq hf hg n e = absurd (omega arith)
fed-injective p q (f ∷ fs) [] hp hq hf hg n e = absurd (omega arith)

pub chain_hash-IsClean :
    (sha256 : Text → Text)
    → ((a : Text) → IsClean (sha256 a))
    → (p : Text) (fs : List Text) → IsClean (chain_hash sha256 p fs)
unfolding chain_hash
chain_hash-IsClean sha256 hex p fs = hex (p ++ fed fs)

-- Two different texts with one digest.
abbrev pub Collision : (Text → Text) → Type 0
Collision sha256 = (a : Text) × (b : Text) × (a ≢ b) × (sha256 a ≡ sha256 b)

-- Two entries with as many fields, none of which holds the separator, have one hash only if they
-- agree in the previous hash and in every field, or else SHA-256 has a collision.
pub chain_hash-injective :
    (sha256 : Text → Text) (p q : Text) (fs gs : List Text)
    → IsClean p
    → IsClean q
    → All IsClean fs
    → All IsClean gs
    → length fs ≡ length gs
    → chain_hash sha256 p fs ≡ chain_hash sha256 q gs
    → ((p ≡ q) × (fs ≡ gs)) ⊎ Collision sha256
unfolding chain_hash
chain_hash-injective sha256 p q fs gs hp hq hf hg n e =
    let a = p ++ fed fs in
    let b = q ++ fed gs in
    elim (Bool-cases (text_eq a b)) [
      | inl same ↦ inl (fed-injective p q fs gs hp hq hf hg n (text_eq→eq a b same))
      | inr other ↦ inr (a, b, (λ h. cc ((text_eq_iff a b).1 h)), e)
    ]

append-cancel : (a b c : Text) → a ++ c ≡ b ++ c → a ≡ b
append-cancel [] [] c e = refl
append-cancel [] (y ∷ b) c e = absurd (omega (arith, length-append (y ∷ b) c, ap length e))
append-cancel (x ∷ a) [] c e = absurd (omega (arith, length-append (x ∷ a) c, ap length e))
append-cancel (x ∷ a) (y ∷ b) c e = let rest : a ≡ b = append-cancel a b c cc in cc

-- One list of fields has one hash after two previous hashes only if these are the same, or else
-- SHA-256 has a collision.
pub chain_hash-previous :
    (sha256 : Text → Text) (p q : Text) (fs : List Text)
    → chain_hash sha256 p fs ≡ chain_hash sha256 q fs
    → (p ≡ q) ⊎ Collision sha256
unfolding chain_hash
chain_hash-previous sha256 p q fs e =
    let a = p ++ fed fs in
    let b = q ++ fed fs in
    elim (Bool-cases (text_eq a b)) [
      | inl same ↦ inl (append-cancel p q (fed fs) (text_eq→eq a b same))
      | inr other ↦ inr (a, b, (λ h. cc ((text_eq_iff a b).1 h)), e)
    ]

-- The separator is not escaped: text that follows a separator inside one field may be moved to the
-- front of the next field, and the hash stays the same.
pub chain_hash-shift :
    (sha256 : Text → Text) (p a b c : Text) (fs : List Text)
    → chain_hash sha256 p ((a ++ separator ∷ b) ∷ c ∷ fs)
      ≡ chain_hash sha256 p (a ∷ (b ++ separator ∷ c) ∷ fs)
unfolding chain_hash
chain_hash-shift sha256 p a b c fs = ap (λ t. sha256 (p ++ separator ∷ t)) (simp append_assoc)
