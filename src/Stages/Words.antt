-- ===== src/Stages/Words.antt =====
-- Words and parts of texts, as voclyp/pipeline/stages/signals.py looks for them.
use voclyp_dev.Prelude.{
  ℕ, suc, Bool, true, false, ◌&&◌, ◌||◌, ◌==◌, Option, none, some, List, [], ◌∷◌, if◌then◌else◌,
  leb, Text,
}

-- `s.startswith(p)`
abbrev pub starts_with : Text → Text → Bool
starts_with [] s = true
starts_with (c ∷ p) [] = false
starts_with (c ∷ p) (d ∷ s) = (c == d) && starts_with p s

-- `s.find(p)`, where `none` is -1
unfoldable pub find_text : Text → Text → Option ℕ
find_text p [] = if starts_with p [] then some 0 else none
find_text p (c ∷ s) =
    let rest = find_text p s in
    if starts_with p (c ∷ s) then some 0 else elim rest [ none ↦ none | some i ↦ some (suc i) ]

-- `p in s`
unfoldable pub contains : Text → Text → Bool
unfolding find_text
contains p s = elim (find_text p s) [ none ↦ false | some i ↦ true ]

-- the class `[a-z']`
letter_or_quote : ℕ → Bool
letter_or_quote c = (leb 97 c && leb c 122) || (c == 39)

-- the words found so far, of which the first may go on
join_word : ℕ → Bool → List Text → List Text
join_word c true [] = (c ∷ []) ∷ []
join_word c true (w ∷ words) = (c ∷ w) ∷ words
join_word c false words = (c ∷ []) ∷ words

-- whether the text begins inside a word
begins_word : Text → Bool
unfolding letter_or_quote
begins_word [] = false
begins_word (c ∷ s) = letter_or_quote c

-- `_WORD.findall(s)`
unfoldable pub find_words : Text → List Text
unfolding join_word begins_word letter_or_quote
find_words [] = []
find_words (c ∷ s) =
    let rest = find_words s in if letter_or_quote c then join_word c (begins_word s) rest else rest
