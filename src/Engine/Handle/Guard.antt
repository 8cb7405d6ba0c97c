-- ===== src/Engine/Handle/Guard.antt =====
-- The loop guard: the engine never reacts to what it published.
use chitchat.Base.{
  ℕ, str_eq, is_empty, true, Bool-cases, inl, inr, [], lookup-insert, ◌≡◌, refl, ap,
}
use chitchat.Value.{str, is_null}
use chitchat.Libraries.{Libraries}
use chitchat.Config.Types.{Rule, origin_header}
use chitchat.Broker.Message.{Message}
use chitchat.Engine.State.{Engine}
use chitchat.Engine.Handle.{
  present, is_own, with_direction, copy_headers, response_headers, record_in_spy, react,
  handle_message,
}

pub response_headers_are_own :
    (msg : Message) (r : Rule) → msg.headers ≡ response_headers r → is_own msg ≡ true
unfolding is_own present response_headers is_null str_eq
response_headers_are_own msg r h =
    rw (is_own, h, response_headers)
      (ap present (
        lookup-insert origin_header origin_header (str r.name)
          (copy_headers [] r.mock_response.headers)))

pub same_headers : (msg : Message) → (with_direction msg).headers ≡ msg.headers
unfolding with_direction
same_headers msg = elim (Bool-cases (is_empty msg.direction)) [
  | inl a ↦ rw (with_direction, a) refl
  | inr a ↦ rw (with_direction, a) refl
]

module _ (lib : Libraries) {D : Type 0} where
  pub own_skipped :
      (now : ℕ) (msg : Message) (source : ℕ) (e : Engine D)
      → is_own msg ≡ true
      → handle_message lib now msg source e ≡ (record_in_spy lib now (with_direction msg) e, source)
  unfolding handle_message react is_own
  own_skipped now msg source e h = rw (handle_message, react, is_own, same_headers msg, h) refl

  -- A message with the headers that dispatch gives to a rule's response is recorded in the spy and has
  -- no other effect: no counter changes, no response is started, no template is rendered.
  pub own_ignored :
      (now : ℕ) (msg : Message) (source : ℕ) (e : Engine D) (r : Rule)
      → msg.headers ≡ response_headers r
      → handle_message lib now msg source e ≡ (record_in_spy lib now (with_direction msg) e, source)
  own_ignored now msg source e r h = own_skipped now msg source e (response_headers_are_own msg r h)
