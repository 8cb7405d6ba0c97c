-- ===== src/Spy/Params/RoundTrip.antt =====
-- A filter can be written as query parameters, and is read back from them.
use mathlib.Core.List.{append-nil, append_assoc}
use chitchat.Base.{
  ne_iff, ℕ, ◌<◌, ◌^◌, Str, codes, str_eq, str_eq_iff, ◌==◌, ==_iff, Bool-cases, inl, inr, false,
  Option, none, some, List, [], ◌∷◌, ◌++◌, In, All, Distinct, Dict, lookup, insert, keys, ok, ◌≡◌,
  ◌≢◌, ◌⊎◌, refl, ap, sym, ◌∙◌, subst,
}
use chitchat.Base.Int.{ℤ, pos}
use chitchat.Base.Decimal.{itoa, parse_uint-itoa, atoi-itoa, itoa_ne}
use chitchat.Broker.Message.{direction_received, direction_published}
use chitchat.Spy.Message.{Filter, BodyFilter}
use chitchat.Spy.Params.{
  Values, split_kv, parse_direction, parse_since, parse_limit, parse_headers, parse_bodies,
  parse_filter, since_or, limit_or,
}

-- "name=value", or a bare "name"
abbrev pub join_kv : Str → Option Str → Str
join_kv name none = name
join_kv name (some value) = name ++ b'=' ∷ value

-- A name that is not empty and has no '='.
abbrev pub IsName : Str → Type 0
IsName s = (s ≢ []) × ¬ In b'=' s

not_equals : (c : ℕ) (s : Str) → ¬ In b'=' (c ∷ s) → (c == b'=') ≡ false
not_equals c s n = elim (Bool-cases (c == b'=')) [
  | inl a ↦ absurd (n (inl (sym ((==_iff c b'=').0 a))))
  | inr a ↦ a
]

split_kv-join_kv :
    (name : Str) (value : Option Str)
    → ¬ In b'=' name
    → split_kv (join_kv name value) ≡ (name, value)
unfolding split_kv
split_kv-join_kv [] none n = refl
split_kv-join_kv [] (some v) n = refl
split_kv-join_kv (c ∷ s) none n =
    rw (split_kv, not_equals c s n)
      (ap (λ r. (c ∷ r.0, r.1)) (split_kv-join_kv s none (λ i. n (inr i))))
split_kv-join_kv (c ∷ s) (some v) n =
    rw (split_kv, not_equals c s n)
      (ap (λ r. (c ∷ r.0, r.1)) (split_kv-join_kv s (some v) (λ i. n (inr i))))

insert_new :
    {V : Type 0} (k : Str) (v : V) (m : Dict V) → ¬ In k (keys m) → insert k v m ≡ m ++ (k, v) ∷ []
unfolding insert
insert_new k v [] n = refl
insert_new k v ((j, w) ∷ m) n = elim (Bool-cases (str_eq j k)) [
  | inl a ↦ absurd (n (inl (sym ((str_eq_iff j k).0 a))))
  | inr a ↦ rw (insert, a) (ap (λ t. (j, w) ∷ t) (insert_new k v m (λ i. n (inr i))))
]

-- The parameters `header` for the filter's headers.
abbrev pub header_params : Dict (Option Str) → List Str
header_params [] = []
header_params ((name, value) ∷ hs) = join_kv name value ∷ header_params hs

abbrev pub body_params : List BodyFilter → List Str
body_params [] = []
body_params (b ∷ bs) = join_kv b.path b.value ∷ body_params bs

keys_snoc :
    {V : Type 0} (m k : Str) (v : V) (acc : Dict V)
    → In m (keys (acc ++ (k, v) ∷ []))
    → In m (keys acc) ⊎ (m ≡ k)
keys_snoc m k v [] i = elim i [ inl e ↦ inr e | inr j ↦ absurd j ]
keys_snoc m k v ((j, w) ∷ acc) i = elim i [
  | inl e ↦ inl (inl e)
  | inr l ↦ elim (keys_snoc m k v acc l) [ inl x ↦ inl (inr x) | inr e ↦ inr e ]
]

module _ (quote : Str → Str) where
  parse_headers-params :
      (acc hs : Dict (Option Str))
      → All IsName (keys hs)
      → Distinct (keys hs)
      → ((m : Str) → In m (keys hs) → ¬ In m (keys acc))
      → parse_headers quote acc (header_params hs) ≡ ok (acc ++ hs)
  unfolding parse_headers
  parse_headers-params acc [] names d fresh = ap ok (sym (append-nil acc))
  parse_headers-params acc ((k, v) ∷ hs) (name, names) (new, d) fresh =
      rw
        (
          parse_headers,
          split_kv-join_kv k v name.1,
          insert_new k v acc (fresh k (inl refl)),
          (ne_iff k).1 name.0,
        )
        (parse_headers-params (acc ++ (k, v) ∷ []) hs names d (λ m i j.
            elim (keys_snoc m k v acc j) [
              | inl x ↦ fresh m (inr i) x
              | inr e ↦ new (subst (λ t. In t (keys hs)) e i)
            ])
          ∙ ap ok (append_assoc acc ((k, v) ∷ []) hs))

  parse_bodies-params :
      (acc bs : List BodyFilter)
      → All (λ b. IsName b.path) bs
      → parse_bodies quote acc (body_params bs) ≡ ok (acc ++ bs)
  unfolding parse_bodies
  parse_bodies-params acc [] names = ap ok (sym (append-nil acc))
  parse_bodies-params acc (b ∷ bs) (name, names) =
      rw (parse_bodies, split_kv-join_kv b.path b.value name.1, (ne_iff b.path).1 name.0)
        (parse_bodies-params (acc ++ b ∷ []) bs names ∙ ap ok (append_assoc acc (b ∷ []) bs))

  -- The query of a client that asks for the filter, with a limit of `limit`.
  abbrev pub params : Filter → ℕ → Values
  params f limit =
      (codes "queue", f.queue ∷ [])
      ∷ (codes "exchange", f.exchange ∷ [])
      ∷ (codes "routing_key", f.routing_key ∷ [])
      ∷ (codes "direction", f.direction ∷ [])
      ∷ (codes "rule", f.rule ∷ [])
      ∷ (codes "since", itoa f.since_seq ∷ [])
      ∷ (codes "limit", itoa limit ∷ [])
      ∷ (codes "header", header_params f.headers)
      ∷ (codes "body", body_params f.body)
      ∷ []

  direction_back :
      (d : Str)
      → (d ≡ []) ⊎ (d ≡ direction_received) ⊎ (d ≡ direction_published)
      → parse_direction quote d ≡ ok d
  unfolding parse_direction str_eq
  direction_back d (inl e) = rw e refl
  direction_back d (inr (inl e)) = rw e refl
  direction_back d (inr (inr e)) = rw e refl

  since_back : (n : ℕ) → n < 2 ^ 64 → parse_since quote (itoa n) ≡ ok n
  unfolding parse_since since_or
  since_back n h = rw (parse_since, itoa_ne n, parse_uint-itoa n h, since_or) refl

  limit_back : (n : ℕ) → n < 2 ^ 63 → parse_limit quote (itoa n) ≡ ok (pos n)
  unfolding parse_limit limit_or
  limit_back n h = rw (parse_limit, itoa_ne n, atoi-itoa n h, limit_or) refl

  -- parseFilter reads back a filter from the parameters that a client writes for it, where the
  -- direction is one that there is, or none, the numbers fit in 64 bits, the header names are
  -- distinct, and header names and body paths are not empty and have no '='.
  pub parse_filter-params :
      (f : Filter) (limit : ℕ)
      → f.limit ≡ pos limit
      → limit < 2 ^ 63
      → f.since_seq < 2 ^ 64
      → (f.direction ≡ [])
        ⊎ (f.direction ≡ direction_received)
        ⊎ (f.direction ≡ direction_published)
      → All IsName (keys f.headers)
      → Distinct (keys f.headers)
      → All (λ b. IsName b.path) f.body
      → parse_filter quote (params f limit) ≡ ok f
  unfolding parse_filter lookup str_eq
  parse_filter-params f limit l lb sb d names distinct paths =
      rw
        (
          parse_filter,
          direction_back f.direction d,
          since_back f.since_seq sb,
          limit_back limit lb,
          parse_headers-params [] f.headers names distinct (λ m i j. j),
          parse_bodies-params [] f.body paths,
        )
        (ap (λ (z : ℤ). ok (record f { limit = z })) (sym l))
