-- ===== src/Broker/RabbitMq/Consumer/Order.antt =====
-- pkg/broker/rabbitmq.go: what the goroutine of StartConsuming sends, in which order.
use chitchat.Base.{
  branch_lem, Str, true, false, none, some, List, [], ◌∷◌, ◌++◌, map, ◌≡◌, ◌⊎◌, inl, inr, refl, sym,
  ◌∙◌, ap, false≢true,
}
use chitchat.Broker.Message.{Message}
use chitchat.Broker.RabbitMq.Consumer.{
  Delivery, delivered, Consumer, Phase, waiting, holding, returned, Event, arrive, close_deliveries,
  cancel, see_cancel, see_delivery, hand_over, leave, push, receive, see, send, consumer_step,
  consumer_run, new_consumer,
}

-- The message that was received and not sent.
abbrev pub held : Phase → List Message
held waiting = []
held (holding m) = m ∷ []
held (returned none) = []
held (returned (some m)) = m ∷ []

-- Why the goroutine returned.
abbrev pub Excused : Consumer → Phase → Type 0
Excused c waiting = Unit
Excused c (holding m) = Unit
Excused c (returned none) = (c.cancelled ≡ true) ⊎ ((c.deliveries_closed ≡ true) × (c.pending ≡ []))
Excused c (returned (some m)) = c.cancelled ≡ true

-- The deliveries so far, each as a message and in their order, are the messages sent, then the one
-- that was received only, then the ones still in the channel; and the goroutine has returned only
-- if the context is done or nothing is left in a closed channel.
abbrev pub InOrder : Str → Consumer × Phase → Type 0
InOrder queue (c, p) =
    (map (delivered queue) c.arrived ≡ c.sent ++ (held p ++ map (delivered queue) c.pending))
    × Excused c p

snoc_lem :
    {A B : Type 0} (f : A → B) (xs : List A) (x : A)
    → map f (xs ++ (x ∷ [])) ≡ map f xs ++ (f x ∷ [])
snoc_lem f [] x = refl
snoc_lem f (y ∷ ys) x = ap (λ zs. f y ∷ zs) (snoc_lem f ys x)

assoc_lem : {A : Type 0} (xs ys zs : List A) → (xs ++ ys) ++ zs ≡ xs ++ (ys ++ zs)
assoc_lem [] ys zs = refl
assoc_lem (x ∷ xs) ys zs = ap (λ ws. x ∷ ws) (assoc_lem xs ys zs)

-- Excused looks at `pending` only of a closed channel, and nothing arrives in one.
arrive_Excused :
    (c c' : Consumer) (p : Phase)
    → c.deliveries_closed ≡ false
    → c'.cancelled ≡ c.cancelled
    → Excused c p
    → Excused c' p
arrive_Excused c c' waiting o e h = tt
arrive_Excused c c' (holding m) o e h = tt
arrive_Excused c c' (returned none) o e (inl h) = inl (e ∙ h)
arrive_Excused c c' (returned none) o e (inr (h, _)) = absurd (false≢true (sym o ∙ h))
arrive_Excused c c' (returned (some m)) o e h = e ∙ h

close_Excused :
    (c : Consumer) (p : Phase) → Excused c p → Excused (record c { deliveries_closed = true }) p
close_Excused c waiting h = tt
close_Excused c (holding m) h = tt
close_Excused c (returned none) (inl h) = inl h
close_Excused c (returned none) (inr (h, k)) = inr (refl, k)
close_Excused c (returned (some m)) h = h

cancel_Excused : (c : Consumer) (p : Phase) → Excused (record c { cancelled = true }) p
cancel_Excused c waiting = tt
cancel_Excused c (holding m) = tt
cancel_Excused c (returned none) = inl refl
cancel_Excused c (returned (some m)) = refl

leave_lem :
    (queue : Str) (c : Consumer) (p : Phase)
    → c.cancelled ≡ true
    → InOrder queue (c, p)
    → InOrder queue (c, leave p)
leave_lem queue c waiting k (h, e) = (h, inl k)
leave_lem queue c (holding m) k (h, e) = (h, k)
leave_lem queue c (returned o) k h = h

receive_lem :
    (queue : Str) (ds : List Delivery) (c : Consumer)
    → map (delivered queue) c.arrived ≡ c.sent ++ map (delivered queue) ds
    → InOrder queue (receive queue ds c)
unfolding receive
receive_lem queue [] c h =
    branch_lem (λ p. InOrder queue (record c { pending = [] }, p)) c.deliveries_closed _ _
      (λ a. (h, inr (a, refl))) (λ _. (h, tt))
receive_lem queue (d ∷ ds) c h = (h, tt)

see_lem :
    (queue : Str) (c : Consumer) (p : Phase) → InOrder queue (c, p) → InOrder queue (see queue c p)
see_lem queue c waiting (h, e) = receive_lem queue c.pending c h
see_lem queue c (holding m) h = h
see_lem queue c (returned o) h = h

send_lem :
    (queue : Str) (c : Consumer) (p : Phase) → InOrder queue (c, p) → InOrder queue (send c p)
send_lem queue c waiting h = h
send_lem queue c (holding m) (h, e) = (h ∙ sym (assoc_lem c.sent (m ∷ []) _), tt)
send_lem queue c (returned o) h = h

arrive_lem :
    (queue : Str) (d : Delivery) (c : Consumer) (p : Phase)
    → InOrder queue (c, p)
    → InOrder queue (consumer_step queue (arrive d) (c, p))
unfolding consumer_step
arrive_lem queue d c p (h, e) =
    let f = delivered queue in
    let m = f d ∷ [] in
    branch_lem (λ c'. InOrder queue (c', p)) c.deliveries_closed c (push d c) (λ _. (h, e))
      (λ a. (
        snoc_lem f c.arrived d
            ∙ (ap (λ ms. ms ++ m) h
                ∙ (assoc_lem c.sent (held p ++ map f c.pending) m
                    ∙ ap (λ ms. c.sent ++ ms)
                        (assoc_lem (held p) (map f c.pending) m
                          ∙ ap (λ ms. held p ++ ms) (sym (snoc_lem f c.pending d))))),
        arrive_Excused c (push d c) p a refl e,
      ))

step_lem :
    (queue : Str) (e : Event) (c : Consumer) (p : Phase)
    → InOrder queue (c, p)
    → InOrder queue (consumer_step queue e (c, p))
unfolding consumer_step
step_lem queue (arrive d) c p h = arrive_lem queue d c p h
step_lem queue close_deliveries c p (h, e) = (h, close_Excused c p e)
step_lem queue cancel c p (h, e) = (h, cancel_Excused c p)
step_lem queue see_cancel c p h =
    branch_lem (λ p'. InOrder queue (c, p')) c.cancelled _ _ (λ a. leave_lem queue c p a h) (λ _. h)
step_lem queue see_delivery c p h = see_lem queue c p h
step_lem queue hand_over c p h = send_lem queue c p h

run_lem :
    (queue : Str) (es : List Event) (c : Consumer) (p : Phase)
    → InOrder queue (c, p)
    → InOrder queue (consumer_run queue es (c, p))
unfolding consumer_run
run_lem queue [] c p h = h
run_lem queue (e ∷ es) c p h = run_lem queue es _ _ (step_lem queue e c p h)

-- Whatever arrives and whenever the channel is closed or the context is done, the deliveries so far
-- are, as messages of the queue and in their order, the ones sent, then at most one that was
-- received only, then the ones still in the channel. The goroutine returns only if the context is
-- done or nothing is left in a closed channel, and only the first makes it drop a message.
pub consumer_run-InOrder :
    (queue : Str) (es : List Event) → InOrder queue (consumer_run queue es new_consumer)
unfolding new_consumer
consumer_run-InOrder queue es = run_lem queue es _ _ (refl, tt)
