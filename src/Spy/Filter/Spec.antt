-- ===== src/Spy/Filter/Spec.antt =====
-- What a filter selects.
use chitchat.Base.{
  Wants, differs_iff, ℕ, Str, str_eq, str_eq_iff, str_eq_sound, true, false, Option, none, some,
  List, [], ◌∷◌, lookup, Dict, ◌≡◌, ◌≢◌, sym, ◌∙◌, ap, ◌⊎◌, ◌↔◌, ◌<◌, All, arith, inl, inr, refl,
  guard_iff, need_iff, ◌&&◌, ltb, leb, false≢true,
}
use mathlib.Core.Option.{some-injective}
use chitchat.Value.{Value, Table}
use chitchat.Value.Print.{sprint}
use chitchat.Libraries.{Libraries, GjsonResult}
use chitchat.Broker.Message.{Bytes}
use chitchat.Spy.Message.{CapturedMessage, BodyFilter, Filter}
use chitchat.Spy.Filter.{header_ok, headers_ok, body_ok, bodies_ok, matches}

module _ (lib : Libraries) where
  -- The header exists, and has the wanted text if there is one.
  abbrev pub HeaderWanted : Table → Str × Option Str → Type 0
  HeaderWanted h (name, want) =
      (v : Value) × (lookup name h ≡ some v) × ((want ≡ none) ⊎ (want ≡ some (sprint lib.format v)))

  -- The body is not empty, the path exists in it, and has the wanted text if there is one.
  abbrev pub BodyWanted : Bytes → BodyFilter → Type 0
  BodyWanted raw bf =
      (raw ≢ [])
      × (r : GjsonResult) × (lib.gjson raw bf.path ≡ some r)
      × ((bf.value ≡ none) ⊎ (bf.value ≡ some r.string))

  pub record Selected (f : Filter) (m : CapturedMessage) : Type 0 where
    pub queue : Wants f.queue m.queue
    pub exchange : Wants f.exchange m.exchange
    pub routing_key : Wants f.routing_key m.routing_key
    pub direction : Wants f.direction m.direction
    pub rule : Wants f.rule m.rule
    pub since : (f.since_seq ≡ 0) ⊎ (f.since_seq < m.seq)
    pub headers : All (HeaderWanted m.headers) f.headers
    pub body : All (BodyWanted m.raw) f.body

-- A value that is there and whose text is compared with the wanted one.
text_iff :
    {A : Type 0} (text : A → Str) (w : Str) (a : A)
    → (str_eq (text a) w ≡ true)
      ↔ ((x : A) × (some a ≡ some x) × ((some w ≡ none) ⊎ (some w ≡ some (text x))))
text_iff text w a = (
  λ h. (a, refl, inr (ap some (sym (str_eq_sound (text a) w h)))),
  λ (x, e, o). elim o [
    | inl n ↦ absurd (cc n)
    | inr t ↦
        (str_eq_iff (text a) w).1 (ap text (some-injective _ _ e) ∙ sym (some-injective _ _ t))
  ],
)

module _ (lib : Libraries) where
  header_iff :
      (want : Option Str) (o : Option Value)
      → (header_ok lib want o ≡ true)
        ↔ ((v : Value) × (o ≡ some v) × ((want ≡ none) ⊎ (want ≡ some (sprint lib.format v))))
  unfolding header_ok
  header_iff want none = (λ h. absurd (false≢true h), λ w. cc (w.1))
  header_iff none (some v) = (λ h. (v, refl, inl refl), λ w. refl)
  header_iff (some w) (some v) = text_iff (sprint lib.format) w v

  headers_iff :
      (fs : Dict (Option Str)) (h : Table)
      → (headers_ok lib fs h ≡ true) ↔ All (HeaderWanted lib h) fs
  unfolding headers_ok
  headers_iff [] h = (λ _. tt, λ _. refl)
  headers_iff ((name, want) ∷ fs) h = need_iff (header_iff want (lookup name h)) (headers_iff fs h)

  body_iff :
      (want : Option Str) (o : Option GjsonResult)
      → (body_ok lib want o ≡ true)
        ↔ ((r : GjsonResult) × (o ≡ some r) × ((want ≡ none) ⊎ (want ≡ some r.string)))
  unfolding body_ok
  body_iff want none = (λ h. absurd (false≢true h), λ w. cc (w.1))
  body_iff none (some r) = (λ h. (r, refl, inl refl), λ w. refl)
  body_iff (some w) (some r) = text_iff (λ x. x.string) w r

  bodies_iff :
      (fs : List BodyFilter) (raw : Bytes)
      → (bodies_ok lib fs raw ≡ true) ↔ All (BodyWanted lib raw) fs
  unfolding bodies_ok
  bodies_iff [] raw = (λ _. tt, λ _. refl)
  bodies_iff (bf ∷ fs) [] = (λ h. absurd (false≢true h), λ w. absurd (w.0.0 refl))
  bodies_iff (bf ∷ fs) (b ∷ raw) =
      let h = body_iff bf.value (lib.gjson (b ∷ raw) bf.path) in
      need_iff (λ a. let (x, e, t) = h.0 a in (λ n. cc n, x, e, t), λ (_, x, e, t). h.1 (x, e, t))
        (bodies_iff fs (b ∷ raw))

  since_iff : (s seq : ℕ) → ((ltb 0 s && leb seq s) ≡ false) ↔ ((s ≡ 0) ⊎ (s < seq))
  since_iff s seq = ground arith

  -- A filter matches a captured message exactly when the message meets every condition that the
  -- filter sets: the five texts, the sequence number, each header and each body path.
  pub matches_iff : (f : Filter) (m : CapturedMessage) → (matches lib f m ≡ true) ↔ Selected lib f m
  unfolding matches
  matches_iff f m =
      let e = guard_iff (differs_iff f.queue m.queue) (
        guard_iff (differs_iff f.exchange m.exchange) (
          guard_iff (differs_iff f.routing_key m.routing_key) (
            guard_iff (differs_iff f.direction m.direction) (
              guard_iff (differs_iff f.rule m.rule) (
                guard_iff (since_iff f.since_seq m.seq)
                  (need_iff (headers_iff f.headers m.headers) (bodies_iff f.body m.raw))))))) in
      (
        λ h.
            let (a, (b, (c, (d, (g, (s, (hs, bs))))))) = e.0 h in
            record {
              queue = a;
              exchange = b;
              routing_key = c;
              direction = d;
              rule = g;
              since = s;
              headers = hs;
              body = bs;
            },
        λ w. e.1 (
          w.queue,
          (w.exchange, (w.routing_key, (w.direction, (w.rule, (w.since, (w.headers, w.body)))))),
        ),
      )
