-- ===== src/Config/Topic/Spec.antt =====
-- What topic matching means, and that matchWords decides it.
use chitchat.Base.{
  Str, str_eq, str_eq_iff, Bool, true, List, [], ◌∷◌, ◌≡◌, ◌≢◌, refl, ◌↔◌, arith, split, Bool-cases,
  inl, inr, ◌⊎◌, false≢true, or_elim, or_left, or_right, and_elim, and_intro, ne_of_str_eq,
  split_some, split_word,
}
use chitchat.Config.Topic.{
  hash, star, try_suffixes, one_word, match_first, match_words, topic_matches,
}

-- The AMQP rule, one word at a time: '*' stands for one word, '#' for any number of words, any
-- other word for itself.
pub data Matches : List Str → List Str → Type 0 where
  done : Matches [] []
  hash_none : {p : Str} {ps key : List Str} → p ≡ hash → Matches ps key → Matches (p ∷ ps) key
  hash_more :
      {p w : Str} {ps key : List Str} → p ≡ hash → Matches (p ∷ ps) key → Matches (p ∷ ps) (w ∷ key)
  star_word :
      {p w : Str} {ps key : List Str} → p ≡ star → Matches ps key → Matches (p ∷ ps) (w ∷ key)
  same_word :
      {p w : Str} {ps key : List Str}
      → p ≢ hash
      → p ≢ star
      → p ≡ w
      → Matches ps key
      → Matches (p ∷ ps) (w ∷ key)

-- The test `rest` decides `Matches ps`.
abbrev Decides : List Str → (List Str → Bool) → Type 0
Decides ps rest = (key : List Str) → (rest key ≡ true) ↔ Matches ps key

hash_at_end : {p : Str} {ps : List Str} → Matches (p ∷ ps) [] → (p ≡ hash) × Matches ps []
hash_at_end (hash_none e m) = (e, m)

star-ne-hash : {p : Str} → p ≡ hash → p ≡ star → ⊥
star-ne-hash e f = ground arith

hash_first :
    {p w : Str} {ps key : List Str}
    → p ≡ hash
    → Matches (p ∷ ps) (w ∷ key)
    → Matches ps (w ∷ key) ⊎ Matches (p ∷ ps) key
hash_first e (hash_none f m) = inl m
hash_first e (hash_more f m) = inr m
hash_first e (star_word f m) = absurd (star-ne-hash e f)
hash_first e (same_word n f g m) = absurd (n e)

word_first :
    {p w : Str} {ps key : List Str}
    → p ≢ hash
    → Matches (p ∷ ps) (w ∷ key)
    → ((p ≡ star) ⊎ (p ≡ w)) × Matches ps key
word_first n (hash_none f m) = absurd (n f)
word_first n (hash_more f m) = absurd (n f)
word_first n (star_word f m) = (inl f, m)
word_first n (same_word h f g m) = (inr g, m)

module _ {p : Str} {ps : List Str} {rest : List Str → Bool} (d : Decides ps rest) where
  hash_iff : p ≡ hash → Decides (p ∷ ps) (try_suffixes rest)
  hash_iff e [] = (λ h. hash_none e ((d []).0 h), λ m. (d []).1 (hash_at_end m).1)
  hash_iff e (w ∷ key) =
      let ih = hash_iff e key in
      (
        λ h. or_elim h (λ a. hash_none e ((d (w ∷ key)).0 a)) (λ b. hash_more e (ih.0 b)),
        λ m. elim (hash_first e m) [
          | inl a ↦ or_left _ ((d (w ∷ key)).1 a)
          | inr b ↦ or_right (rest (w ∷ key)) (ih.1 b)
        ],
      )

  star_iff : p ≡ star → p ≢ hash → Decides (p ∷ ps) (one_word (λ w. true) rest)
  star_iff e n [] = (λ h. absurd (false≢true h), λ m. absurd (n (hash_at_end m).0))
  star_iff e n (w ∷ key) = (λ h. star_word e ((d key).0 h), λ m. (d key).1 (word_first n m).1)

  word_iff : p ≢ star → p ≢ hash → Decides (p ∷ ps) (one_word (str_eq p) rest)
  word_iff e n [] = (λ h. absurd (false≢true h), λ m. absurd (n (hash_at_end m).0))
  word_iff e n (w ∷ key) = (
    λ h. let (a, b) = and_elim (str_eq p w) h in same_word n e ((str_eq_iff p w).0 a) ((d key).0 b),
    λ m.
        let (a, b) = word_first n m in
        and_intro (elim a [ inl f ↦ absurd (e f) | inr g ↦ (str_eq_iff p w).1 g ]) ((d key).1 b),
  )

  first_iff : Decides (p ∷ ps) (match_first p rest)
  unfolding match_first
  first_iff key = elim (Bool-cases (str_eq p hash)) [
    | inl a ↦ rw a (hash_iff ((str_eq_iff p hash).0 a) key)
    | inr a ↦ elim (Bool-cases (str_eq p star)) [
      | inl b ↦ rw (a, b) (star_iff ((str_eq_iff p star).0 b) (ne_of_str_eq a) key)
      | inr b ↦ rw (a, b) (word_iff (ne_of_str_eq b) (ne_of_str_eq a) key)
    ]
  ]

match_words_iff : (ps : List Str) → Decides ps (match_words ps)
unfolding match_words
match_words_iff [] [] = (λ h. done, λ m. refl)
match_words_iff [] (w ∷ key) = (λ h. absurd (false≢true h), λ m. elim m [ ])
match_words_iff (p ∷ ps) key = first_iff (match_words_iff ps) key

-- The words of a pattern or a routing key: what stands between the dots, and no words in the empty text.
abbrev words : Str → List Str
words [] = []
words (c ∷ s) = split b'.' (c ∷ s)

-- A topic exchange routes the key to a binding with this pattern.
abbrev pub TopicRule : Str → Str → Type 0
TopicRule pattern' key = Matches (words pattern') (words key)

-- What topicMatches decides: strings.Split makes one empty word of the empty text.
split_iff :
    (pattern' key : Str)
    → (topic_matches pattern' key ≡ true) ↔ Matches (split b'.' pattern') (split b'.' key)
unfolding topic_matches
split_iff pattern' key = match_words_iff (split b'.' pattern') (split b'.' key)

one_more : {ps : List Str} → Matches ps [] → ps ≢ [] → Matches ps ([] ∷ [])
one_more done n = absurd (n refl)
one_more (hash_none e m) n = hash_more e (hash_none e m)

empty_pattern : {key : List Str} → Matches ([] ∷ []) key → key ≡ [] ∷ []
empty_pattern (hash_none e m) = absurd cc
empty_pattern (hash_more e m) = absurd cc
empty_pattern (star_word e m) = absurd cc
empty_pattern (same_word n f g done) = rw g refl

no_pattern : {key : List Str} → Matches [] key → key ≡ []
no_pattern done = refl

rule_split :
    (pattern' key : Str) → TopicRule pattern' key → Matches (split b'.' pattern') (split b'.' key)
unfolding split
rule_split [] [] m = same_word (λ h. cc) (λ h. cc) refl done
rule_split [] (d ∷ k) m = absurd (split_some b'.' (d ∷ k) (no_pattern m))
rule_split (c ∷ s) [] m = one_more m (split_some b'.' (c ∷ s))
rule_split (c ∷ s) (d ∷ k) m = m

split_rule :
    (pattern' key : Str)
    → key ≢ []
    → Matches (split b'.' pattern') (split b'.' key)
    → TopicRule pattern' key
unfolding split
split_rule pattern' [] n m = absurd (n refl)
split_rule [] (d ∷ k) n m = absurd (split_word b'.' d k (empty_pattern m))
split_rule (c ∷ s) (d ∷ k) n m = m

-- topicMatches accepts every key that the AMQP rule for topic exchanges accepts, and no other key
-- that is not empty. The rule goes word by word, and there is no word in the empty text.
pub topic_matches_rule :
    (pattern' key : Str)
    → (TopicRule pattern' key → topic_matches pattern' key ≡ true)
      × (key ≢ [] → topic_matches pattern' key ≡ true → TopicRule pattern' key)
topic_matches_rule pattern' key =
    let e = split_iff pattern' key in
    (λ m. e.1 (rule_split pattern' key m), λ n h. split_rule pattern' key n (e.0 h))
