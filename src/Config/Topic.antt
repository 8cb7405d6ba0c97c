-- ===== src/Config/Topic.antt =====
-- pkg/config/validate.go: topicMatches and matchWords, the matching of AMQP topic exchanges.
pub mod Spec
use chitchat.Base.{
  Str, codes, str_eq, split, Bool, true, false, ◌&&◌, ◌||◌, List, [], ◌∷◌, if◌then◌else◌,
}

abbrev pub hash : Str
hash = codes "#"

abbrev pub star : Str
star = codes "*"

-- The loop of the case "#": `rest` is matchWords at the remaining pattern, and the loop tries it at
-- key[i:] for i = 0, 1, … len(key).
abbrev pub try_suffixes : (List Str → Bool) → List Str → Bool
try_suffixes rest [] = rest []
try_suffixes rest (w ∷ key) = rest (w ∷ key) || try_suffixes rest key

-- len(key) > 0 && test(key[0]) && rest(key[1:])
abbrev pub one_word : (Str → Bool) → (List Str → Bool) → List Str → Bool
one_word test rest [] = false
one_word test rest (w ∷ key) = test w && rest key

abbrev pub no_words : List Str → Bool
no_words [] = true
no_words (w ∷ key) = false

-- The switch on pattern[0]; `rest` is matchWords at pattern[1:].
unfoldable pub match_first : Str → (List Str → Bool) → List Str → Bool
match_first p rest key =
    if str_eq p hash
    then try_suffixes rest key
    else if str_eq p star
    then one_word (λ w. true) rest key
    else one_word (str_eq p) rest key

unfoldable pub match_words : List Str → List Str → Bool
unfolding match_first
match_words [] key = no_words key
match_words (p ∷ pattern') key = match_first p (match_words pattern') key

unfoldable pub topic_matches : Str → Str → Bool
unfolding match_words split
topic_matches pattern' key = match_words (split b'.' pattern') (split b'.' key)
