-- ===== src/Engine/Template/Transform/Texts.antt =====
-- A statement about every text of a payload, map keys included.
use chitchat.Base.{Str}
use chitchat.Value.{
  Value, Values, Entries, AnyEntries, str, list, dict, any_dict, nil, cons, end, entry, stop,
  any_entry,
}
use chitchat.Value.Print.{sprint}

module _ (format : Value → Str) (P : Str → Type 0) where
  unfoldable mutual
    pub AllTexts : Value → Type 0
    AllTexts (str t) = P t
    AllTexts (list xs) = AllTextsItems xs
    AllTexts (dict m) = AllTextsEntries m
    AllTexts (any_dict m) = AllTextsAnyEntries m
    AllTexts _ = Unit {0}

    pub AllTextsItems : Values → Type 0
    AllTextsItems nil = Unit {0}
    AllTextsItems (cons v vs) = AllTexts v × AllTextsItems vs

    pub AllTextsEntries : Entries → Type 0
    AllTextsEntries end = Unit {0}
    AllTextsEntries (entry k v m) = P k × (AllTexts v × AllTextsEntries m)

    pub AllTextsAnyEntries : AnyEntries → Type 0
    AllTextsAnyEntries stop = Unit {0}
    AllTextsAnyEntries (any_entry k v m) = P (sprint format k) × (AllTexts v × AllTextsAnyEntries m)
