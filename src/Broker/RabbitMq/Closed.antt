-- ===== src/Broker/RabbitMq/Closed.antt =====
-- The driver after Close.
use chitchat.Base.{
  if◌then◌else◌, Str, Bool, Bool-cases, inl, inr, true, false, not, ◌&&◌, none, some, ◌≡◌, refl, ap,
  ◌∙◌,
}
use chitchat.Value.{Table}
use chitchat.Libraries.{Libraries}
use chitchat.Config.Types.{Declarations}
use chitchat.Broker.Message.{Bytes}
use chitchat.Broker.RabbitMq.{
  Client, RabbitMqDriver, not_connected_text, usable, rabbit_close, rabbit_declare_topology,
  rabbit_start_consuming, rabbit_publish,
}

if_false : {A : Type 0} {b : Bool} (x y : A) → b ≡ false → (if b then x else y) ≡ y
if_false x y h = rw h refl

if_true : {A : Type 0} {b : Bool} (x y : A) → b ≡ true → (if b then x else y) ≡ x
if_true x y h = rw h refl

module _ {C : Type 0} (amqp : Client C) (lib : Libraries) where
  close_marks : (r : RabbitMqDriver C) → (rabbit_close amqp lib r).1.closed ≡ true
  unfolding rabbit_close
  close_marks r = elim (Bool-cases r.closed) [
    | inl a ↦ rw (rabbit_close, a) refl
    | inr a ↦ rw (rabbit_close, a) refl
  ]

  unusable : (r : RabbitMqDriver C) → r.closed ≡ true → usable amqp lib r ≡ false
  unusable r h = ap (λ b. r.channel && not b) h ∙ and_false r.channel
    where
      and_false : (a : Bool) → (a && false) ≡ false
      and_false true = refl
      and_false false = refl

  refuses :
      (r : RabbitMqDriver C)
      → r.closed ≡ true
      → (queue exchange key : Str) (body : Bytes) (headers : Table) (ds : Declarations)
      → (rabbit_declare_topology amqp lib ds r ≡ (some not_connected_text, r))
        × (rabbit_start_consuming amqp lib queue r ≡ (some not_connected_text, r))
        × (rabbit_publish amqp lib exchange key body headers r ≡ (some not_connected_text, r))
        × (rabbit_close amqp lib r ≡ (none, r))
  unfolding rabbit_declare_topology rabbit_start_consuming rabbit_publish rabbit_close
  refuses r h queue exchange key body headers ds =
      let u = unusable r h in (if_false _ _ u, if_false _ _ u, if_false _ _ u, if_true _ _ h)

  -- After Close, DeclareTopology, StartConsuming and Publish fail and Close again does nothing: none
  -- of them changes the driver or reaches the broker.
  pub closed_driver_refuses :
      (r : RabbitMqDriver C) (queue exchange key : Str) (body : Bytes) (headers : Table)
      (ds : Declarations)
      → let r' = (rabbit_close amqp lib r).1 in
        (rabbit_declare_topology amqp lib ds r' ≡ (some not_connected_text, r'))
        × (rabbit_start_consuming amqp lib queue r' ≡ (some not_connected_text, r'))
        × (rabbit_publish amqp lib exchange key body headers r' ≡ (some not_connected_text, r'))
        × (rabbit_close amqp lib r' ≡ (none, r'))
  closed_driver_refuses r = refuses (rabbit_close amqp lib r).1 (close_marks r)
