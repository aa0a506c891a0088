-- ===== src/Ingestion/Chunks.antt =====
-- `_chunk` of voclyp/ingestion.py and `looks_like_audio` of voclyp/audio/prepare.py. Bytes are
-- numbers. UTF-8 decoding and the class of letters come from Python's library: `is_letterless`
-- takes a sample to whether it decodes to a text without letters, or to `none` where it does not
-- decode.
pub mod Laws
use voclyp_dev.Prelude.{
  ℕ, zero, suc, ◌+◌, Bool, true, false, ◌&&◌, ◌||◌, Option, none, some, List, [], ◌∷◌,
  if◌then◌else◌, leb, ltb, length, take, drop, Text, codes, text_eq, ◌==◌,
}

abbrev newline : ℕ
newline = 10

-- `audio[i:i + len(magic)] == magic`
abbrev has_magic : ℕ → Text → Text → Bool
has_magic i magic audio = text_eq (take (length magic) (drop i audio)) magic

undecodable : Option Bool → Bool
undecodable none = true
undecodable (some letterless) = letterless

pub looks_like_audio : (Text → Option Bool) → Text → Bool
unfolding undecodable
looks_like_audio is_letterless audio =
    if ltb (length audio) 4
    then false
    else if has_magic 0 (codes "RIFF") audio
    then true
    else if leb 12 (length audio) && has_magic 4 (codes "ftyp") audio
    then true
    else if has_magic 0 (codes "#!AMR") audio
    then true
    else if has_magic 0 (codes "fLaC") audio || has_magic 0 (codes "OggS") audio
    then true
    else undecodable (is_letterless (take 512 audio))

-- `bytes.rfind(b"\n") + 1`, which is 0 if there is none
after_last : ℕ → Text → ℕ
after_last c [] = 0
after_last c (x ∷ xs) = elim (after_last c xs) [
  | zero ↦ if x == c then 1 else 0
  | suc n ↦ suc (suc n)
]

-- `rfind(b"\n", 0, limit) + 1 or limit`
split_at : ℕ → Text → ℕ
unfolding after_last
split_at limit audio = elim (after_last newline (take limit audio)) [ zero ↦ limit | suc n ↦ suc n ]

-- the loop over binary audio, on fuel
binary_chunks : ℕ → ℕ → Text → List Text
binary_chunks fuel limit [] = []
binary_chunks zero limit (x ∷ xs) = []
binary_chunks (suc fuel) limit (x ∷ xs) =
    take limit (x ∷ xs) ∷ binary_chunks fuel limit (drop limit (x ∷ xs))

-- the loop over text, on fuel
text_chunks : ℕ → ℕ → Text → List Text
text_chunks fuel limit [] = []
text_chunks zero limit (x ∷ xs) = []
text_chunks (suc fuel) limit (x ∷ xs) =
    let n = split_at limit (x ∷ xs) in
    let rest = text_chunks fuel limit (drop n (x ∷ xs)) in
    if leb (length (x ∷ xs)) limit then (x ∷ xs) ∷ [] else take n (x ∷ xs) ∷ rest

-- `_chunk`; the loops are given as much fuel as there are bytes
pub chunk : (Text → Option Bool) → ℕ → Text → List Text
unfolding binary_chunks text_chunks split_at looks_like_audio
chunk is_letterless limit audio =
    if leb (length audio) limit
    then audio ∷ []
    else if looks_like_audio is_letterless audio
    then binary_chunks (length audio) limit audio
    else text_chunks (length audio) limit audio
