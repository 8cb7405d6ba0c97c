-- ===== src/Spy/Headers/Clean.antt =====
-- No byte slice is left in the headers that the spy keeps.
use chitchat.Base.{Str, [], ◌∷◌, All, ◌≡◌, refl, ap, ℕ}
use chitchat.Value.{
  Value, null, bool, int, float, str, bytes, raw, list, dict, any_dict, other, Values, nil, cons,
  Entries, end, entry, Table,
}
use chitchat.Libraries.{Libraries}
use chitchat.Broker.Message.{Bytes, Message}
use chitchat.Spy.Headers.{
  normalize_header_value, normalize_items, normalize_entries, normalize_headers,
}
use chitchat.Spy.Ring.{capture}

-- A value that the JSON encoder writes as it reads: no []byte, at any depth of lists and maps.
unfoldable mutual
  pub Readable : Value → Type 0
  Readable (bytes b) = ⊥
  Readable (list xs) = ReadableItems xs
  Readable (dict m) = ReadableEntries m
  Readable v = Unit {0}

  pub ReadableItems : Values → Type 0
  ReadableItems nil = Unit {0}
  ReadableItems (cons v vs) = Readable v × ReadableItems vs

  pub ReadableEntries : Entries → Type 0
  ReadableEntries end = Unit {0}
  ReadableEntries (entry k v m) = Readable v × ReadableEntries m

module _ (to_text : Bytes → Str) where
  mutual
    unfolding normalize_header_value normalize_items normalize_entries Readable ReadableItems
        ReadableEntries

    normalize-Readable : (v : Value) → Readable (normalize_header_value to_text v)
    normalize-Readable null = tt
    normalize-Readable (bool b) = tt
    normalize-Readable (int n) = tt
    normalize-Readable (float n) = tt
    normalize-Readable (str s) = tt
    normalize-Readable (bytes b) = tt
    normalize-Readable (raw b) = tt
    normalize-Readable (list xs) = normalize_items-Readable xs
    normalize-Readable (dict m) = normalize_entries-Readable m
    normalize-Readable (any_dict m) = tt
    normalize-Readable (other s) = tt

    normalize_items-Readable : (vs : Values) → ReadableItems (normalize_items to_text vs)
    normalize_items-Readable nil = tt
    normalize_items-Readable (cons v vs) = (normalize-Readable v, normalize_items-Readable vs)

    normalize_entries-Readable : (m : Entries) → ReadableEntries (normalize_entries to_text m)
    normalize_entries-Readable end = tt
    normalize_entries-Readable (entry k v m) = (normalize-Readable v, normalize_entries-Readable m)

  mutual
    unfolding normalize_header_value normalize_items normalize_entries Readable ReadableItems
        ReadableEntries

    Readable-fixed : (v : Value) → Readable v → normalize_header_value to_text v ≡ v
    Readable-fixed null r = refl
    Readable-fixed (bool b) r = refl
    Readable-fixed (int n) r = refl
    Readable-fixed (float n) r = refl
    Readable-fixed (str s) r = refl
    Readable-fixed (bytes b) r = absurd r
    Readable-fixed (raw b) r = refl
    Readable-fixed (list xs) r = ap list (ReadableItems-fixed xs r)
    Readable-fixed (dict m) r = ap dict (ReadableEntries-fixed m r)
    Readable-fixed (any_dict m) r = refl
    Readable-fixed (other s) r = refl

    ReadableItems-fixed : (vs : Values) → ReadableItems vs → normalize_items to_text vs ≡ vs
    ReadableItems-fixed nil r = refl
    ReadableItems-fixed (cons v vs) r = rw (Readable-fixed v r.0, ReadableItems-fixed vs r.1) refl

    ReadableEntries-fixed : (m : Entries) → ReadableEntries m → normalize_entries to_text m ≡ m
    ReadableEntries-fixed end r = refl
    ReadableEntries-fixed (entry k v m) r =
        rw (Readable-fixed v r.0, ReadableEntries-fixed m r.1) refl

-- Every header of the table is readable.
abbrev pub AllReadable : Table → Type 0
AllReadable h = All (λ e. Readable e.1) h

headers-AllReadable :
    (to_text : Bytes → Str) (h : Table) → AllReadable (normalize_headers to_text h)
unfolding normalize_headers
headers-AllReadable to_text [] = tt
headers-AllReadable to_text ((k, v) ∷ h) =
    (normalize-Readable to_text v, headers-AllReadable to_text h)

AllReadable-fixed :
    (to_text : Bytes → Str) (h : Table) → AllReadable h → normalize_headers to_text h ≡ h
unfolding normalize_headers
AllReadable-fixed to_text [] r = refl
AllReadable-fixed to_text ((k, v) ∷ h) r =
    rw (Readable-fixed to_text v r.0, AllReadable-fixed to_text h r.1) refl

-- In the headers of a captured message no value is a byte slice, at any depth of lists and of maps
-- with string keys, and a message with these headers is captured with just these headers.
pub captured_headers_are_readable :
    (lib : Libraries) (seq now : ℕ) (msg : Message)
    → let h = (capture lib seq now msg).headers in
      AllReadable h × ((capture lib seq now (record msg { headers = h })).headers ≡ h)
unfolding capture
captured_headers_are_readable lib seq now msg =
    let r = headers-AllReadable lib.to_text msg.headers in
    (r, AllReadable-fixed lib.to_text (normalize_headers lib.to_text msg.headers) r)
