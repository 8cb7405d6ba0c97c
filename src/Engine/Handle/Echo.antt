-- ===== src/Engine/Handle/Echo.antt =====
-- The engine with the mock driver: what it publishes does not make it publish again.
use chitchat.Base.{
  ℕ, Str, Bool, Bool-cases, Option-cases, inl, inr, true, ◌&&◌, Option, none, some, List, [], ◌∷◌,
  ◌++◌, All, All-append, In, ◌≡◌, refl, sym, subst,
}
use chitchat.Base.Int.{gt_nat}
use chitchat.Value.{Table}
use chitchat.Libraries.{Libraries}
use chitchat.Config.Types.{Config, Rule}
use chitchat.Broker.Message.{Message, Bytes}
use chitchat.Broker.Mock.{
  MockDriver, PublishedMessage, PublishHook, mock_driver, mock_publish, hook_error, incoming,
  new_mock_driver, get_published,
}
use chitchat.Spy.Ring.{RingBuffer}
use chitchat.Engine.State.{Engine, Job, new_engine}
use chitchat.Engine.Handle.{
  is_own, response_headers, publish_response, dispatch, record_in_spy, react, with_direction,
  handle_message,
}
use chitchat.Engine.Handle.Guard.{response_headers_are_own, own_skipped}

-- A delivery of the message, to any queue, is one that the loop guard stops.
abbrev pub Guarded : PublishedMessage → Type 0
Guarded p = (queue : Str) → is_own (incoming queue p.routing_key p.body p.headers) ≡ true

response-Guarded :
    (r : Rule) (payload : Bytes)
    → Guarded (record {
      exchange = r.mock_response.exchange;
      routing_key = r.mock_response.routing_key;
      body = payload;
      headers = response_headers r;
    })
unfolding incoming
response-Guarded r payload queue =
    response_headers_are_own
      (incoming queue r.mock_response.routing_key payload (response_headers r)) r refl

published_one :
    (hook : PublishHook) (exchange key : Str) (body : Bytes) (headers : Table) (m : MockDriver)
    → hook_error hook exchange key body headers ≡ none
    → mock_publish hook exchange key body headers m ≡ (
      none,
      record m {
        published =
            m.published
            ++ record { exchange = exchange; routing_key = key; body = body; headers = headers }
              ∷ [];
      },
    )
unfolding mock_publish
published_one hook exchange key body headers m a = rw (mock_publish, a) refl

published_none :
    (hook : PublishHook) (exchange key : Str) (body : Bytes) (headers : Table) (m : MockDriver)
    {x : Str}
    → hook_error hook exchange key body headers ≡ some x
    → mock_publish hook exchange key body headers m ≡ (some x, m)
unfolding mock_publish
published_none hook exchange key body headers m a = rw (mock_publish, a) refl

-- A delivery by the driver, or the run of a goroutine for a response.
pub data Activity : Type 0 where
  deliver : (now source : ℕ) → Message → Activity
  respond : (now : ℕ) → (gave_up : Bool) → Job → Activity

module _ (lib : Libraries) (hook : PublishHook) where
  abbrev pub act : Activity → Engine MockDriver → Engine MockDriver
  act (deliver now source msg) e = (handle_message lib now msg source e).0
  act (respond now gave_up job) e = dispatch lib (mock_driver hook) now gave_up job e

  abbrev pub act_all : List Activity → Engine MockDriver → Engine MockDriver
  act_all [] e = e
  act_all (a ∷ rest) e = act_all rest (act a e)

  mock_publish-Guarded :
      (r : Rule) (payload : Bytes) (m : MockDriver)
      → All Guarded m.published
      → All Guarded
          (mock_publish hook r.mock_response.exchange r.mock_response.routing_key payload
            (response_headers r)
            m).1.published
  mock_publish-Guarded r payload m g =
      let exchange = r.mock_response.exchange in
      let key = r.mock_response.routing_key in
      elim (Option-cases (hook_error hook exchange key payload (response_headers r))) [
        | inl a ↦
            subst (λ z. All Guarded z.1.published)
              (sym (published_one hook exchange key payload _ m a))
              (All-append Guarded m.published _ g (response-Guarded r payload, tt))
        | inr (x, a) ↦
            subst (λ z. All Guarded z.1.published)
              (sym (published_none hook exchange key payload _ m a)) g
      ]

  publish_driver :
      (now : ℕ) (r : Rule) (payload : Bytes) (e : Engine MockDriver)
      → (publish_response lib (mock_driver hook) now r payload e).driver
        ≡ (mock_publish hook r.mock_response.exchange r.mock_response.routing_key payload
            (response_headers r)
            e.driver).1
  unfolding publish_response mock_driver record_in_spy
  publish_driver now r payload e =
      elim (Option-cases
        (mock_publish hook r.mock_response.exchange r.mock_response.routing_key payload
          (response_headers r) e.driver).0) [
            | inl a ↦ rw (publish_response, mock_driver, a) refl
            | inr (x, a) ↦ rw (publish_response, mock_driver, a) refl
          ]

  publish-Guarded :
      (now : ℕ) (r : Rule) (payload : Bytes) (e : Engine MockDriver)
      → All Guarded e.driver.published
      → All Guarded (publish_response lib (mock_driver hook) now r payload e).driver.published
  publish-Guarded now r payload e g =
      subst (λ d. All Guarded d.published) (sym (publish_driver now r payload e))
        (mock_publish-Guarded r payload e.driver g)

  handle_driver :
      (now source : ℕ) (msg : Message) (e : Engine MockDriver)
      → (handle_message lib now msg source e).0.driver ≡ e.driver
  unfolding handle_message react record_in_spy
  handle_driver now source msg e = elim (Bool-cases (is_own (with_direction msg))) [
    | inl a ↦ rw (handle_message, react, a) refl
    | inr a ↦ rw (handle_message, react, a) refl
  ]

  act-Guarded :
      (a : Activity) (e : Engine MockDriver)
      → All Guarded e.driver.published
      → All Guarded (act a e).driver.published
  unfolding dispatch
  act-Guarded (deliver now source msg) e g =
      subst (λ d. All Guarded d.published) (sym (handle_driver now source msg e)) g
  act-Guarded (respond now gave_up job) e g =
      elim (Bool-cases (gt_nat job.rule.mock_response.delay_ms 0 && gave_up && e.cancelled)) [
        | inl a ↦ rw (dispatch, a) g
        | inr a ↦ rw (dispatch, a) (publish-Guarded now job.rule job.payload e g)
      ]

  act_all-Guarded :
      (steps : List Activity) (e : Engine MockDriver)
      → All Guarded e.driver.published
      → All Guarded (act_all steps e).driver.published
  act_all-Guarded [] e g = g
  act_all-Guarded (a ∷ rest) e g = act_all-Guarded rest (act a e) (act-Guarded a e g)

  In-Guarded :
      (p : PublishedMessage) (ps : List PublishedMessage) → In p ps → All Guarded ps → Guarded p
  In-Guarded p [] i g = elim i [ ]
  In-Guarded p (x ∷ xs) i (g, gs) = elim i [
    | inl w ↦ subst Guarded (sym w) g
    | inr j ↦ In-Guarded p xs j gs
  ]

  -- However a new engine with a new mock driver handles messages and runs responses, a message that
  -- it has published, once delivered to any queue of an engine in any state, is recorded in the spy and has no
  -- other effect.
  pub echo_ignored :
      (cfg : Config) (spy : Option RingBuffer) (steps : List Activity) (p : PublishedMessage)
      → In p (get_published (act_all steps (new_engine cfg new_mock_driver spy)).driver)
      → (queue : Str) (now source : ℕ) (e : Engine MockDriver)
      → let msg = incoming queue p.routing_key p.body p.headers in
        handle_message lib now msg source e ≡ (record_in_spy lib now (with_direction msg) e, source)
  unfolding new_engine new_mock_driver get_published
  echo_ignored cfg spy steps p i queue now source e =
      own_skipped lib now _ source e
        (In-Guarded p _ i (act_all-Guarded steps (new_engine cfg new_mock_driver spy) tt) queue)
