-- ===== src/Ingestion/Chunks/Laws.antt =====
-- Chunks put together are the upload (voclyp/ingestion.py, `_chunk`).
use voclyp_dev.Prelude.{
  ℕ, zero, suc, ◌≤◌, ◌<◌, ◌≡◌, refl, ◌∙◌, ap, inl, inr, Bool-cases, Bool, Option, List, [], ◌∷◌,
  ◌++◌, arith, leb, append-nil, length, take, drop, concat, All, Text, take-append-drop,
  length-take-le, length-drop,
}
use voclyp_dev.Ingestion.Chunks.{
  newline, after_last, split_at, binary_chunks, text_chunks, looks_like_audio, chunk,
}

after_last-le : (c : ℕ) (xs : Text) → after_last c xs ≤ length xs
unfolding after_last
after_last-le c [] = omega arith
after_last-le c (x ∷ xs) = ground (arith, after_last-le c xs)

split_at_bounds :
    (limit : ℕ) (audio : Text)
    → 0 < limit
    → (0 < split_at limit audio) × (split_at limit audio ≤ limit)
unfolding split_at
split_at_bounds limit audio h =
    ground (arith, after_last-le newline (take limit audio), length-take-le limit audio)

-- The chunks of a loop that has enough fuel: together they are the bytes, and each fits.
abbrev pub Covers : ℕ → Text → List Text → Type 0
Covers limit audio chunks = (concat chunks ≡ audio) × All (λ c. length c ≤ limit) chunks

Covers-step :
    (limit n : ℕ) (audio : Text) (chunks : List Text)
    → n ≤ limit
    → Covers limit (drop n audio) chunks
    → Covers limit audio (take n audio ∷ chunks)
Covers-step limit n audio chunks h (e, fits) = (
  ap (λ rest. take n audio ++ rest) e ∙ take-append-drop n audio,
  (omega (arith, length-take-le n audio), fits),
)

shorter :
    (fuel n : ℕ) (x : ℕ) (xs : Text)
    → 0 < n
    → length (x ∷ xs) ≤ suc fuel
    → length (drop n (x ∷ xs)) ≤ fuel
shorter fuel n x xs h k = omega (arith, length-drop n (x ∷ xs))

binary_chunks-Covers :
    (fuel limit : ℕ) (audio : Text)
    → 0 < limit
    → length audio ≤ fuel
    → Covers limit audio (binary_chunks fuel limit audio)
unfolding binary_chunks
binary_chunks-Covers fuel limit [] h k = (refl, tt)
binary_chunks-Covers zero limit (x ∷ xs) h k = absurd (omega arith)
binary_chunks-Covers (suc fuel) limit (x ∷ xs) h k =
    Covers-step limit limit (x ∷ xs) _ (omega arith)
      (binary_chunks-Covers fuel limit (drop limit (x ∷ xs)) h (shorter fuel limit x xs h k))

text_chunks-Covers :
    (fuel limit : ℕ) (audio : Text)
    → 0 < limit
    → length audio ≤ fuel
    → Covers limit audio (text_chunks fuel limit audio)
unfolding text_chunks
text_chunks-Covers fuel limit [] h k = (refl, tt)
text_chunks-Covers zero limit (x ∷ xs) h k = absurd (omega arith)
text_chunks-Covers (suc fuel) limit (x ∷ xs) h k =
    let n = split_at limit (x ∷ xs) in
    let (some_bytes, within) = split_at_bounds limit (x ∷ xs) h in
    elim (Bool-cases (leb (length (x ∷ xs)) limit)) [
      | inl fits ↦ rw fits (append-nil (x ∷ xs), (ground arith, tt))
      | inr long ↦ rw long (
          Covers-step limit n (x ∷ xs) _ within
            (text_chunks-Covers fuel limit (drop n (x ∷ xs)) h (shorter fuel n x xs some_bytes k)))
    ]

-- With a limit above zero, the loops end with the fuel that they have: the chunks in their order are
-- the upload, byte for byte, and none is longer than the limit.
pub chunk-Covers :
    (is_letterless : Text → Option Bool) (limit : ℕ) (audio : Text)
    → 0 < limit
    → Covers limit audio (chunk is_letterless limit audio)
unfolding chunk
chunk-Covers is_letterless limit audio h = elim (Bool-cases (leb (length audio) limit)) [
  | inl fits ↦ rw fits (append-nil audio, (ground arith, tt))
  | inr long ↦ elim (Bool-cases (looks_like_audio is_letterless audio)) [
    | inl binary ↦
        rw (long, binary) (binary_chunks-Covers (length audio) limit audio h (omega arith))
    | inr text ↦ rw (long, text) (text_chunks-Covers (length audio) limit audio h (omega arith))
  ]
]
