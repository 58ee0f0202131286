-- ===== src/Queue/Routing.antt =====
-- A cluster of queue nodes whose rings agree: a request goes to the owner of its queue.
use sinkronisasi_dan_distrib.Base.{
  ℕ, String, ◌≡◌, ◌≢◌, inl, inr, Bool, true, Option, none, some, ite, dec_string, if◌then◌else◌,
  arith, Option-cases,
}
use sinkronisasi_dan_distrib.Queue.{QueueNode, Delivery, local_publish, local_dequeue}
use sinkronisasi_dan_distrib.Queue.Handlers.{
  Response, enqueued, delivered, queue_empty, forward_failed, Outcome, done, forward, is_some_me,
  forward_reply, handle_publish, dequeued, handle_consume, handle_internal_dequeue,
}

abbrev pub Cluster : Type 0 → Type 0
Cluster V = String → QueueNode V

module _ {V : Type 0} where
  unfoldable pub put_node : Cluster V → String → QueueNode V → Cluster V
  put_node cl id n j = ite (dec_string id j) n (cl j)

  -- The second node's own outcome, as the first node passes it on. A second forward cannot be
  -- answered within one request, and does not occur where the rings agree.
  unfoldable pub relay : Cluster V → String → Outcome V → Cluster V × Response V
  unfolding put_node forward_reply
  relay cl t (done n r) = (put_node cl t n, forward_reply (some r))
  relay cl t (forward x) = (cl, forward_failed)

  -- A request at the node `me`: `inner` is the handler, by node, of the path to which it forwards.
  unfoldable pub route :
      (String → Bool)
      → (String → QueueNode V → Outcome V)
      → Cluster V
      → String
      → Outcome V
      → Cluster V × Response V
  unfolding put_node relay
  route up inner cl me (done n r) = (put_node cl me n, r)
  route up inner cl me (forward none) = (cl, forward_failed)
  route up inner cl me (forward (some t)) =
      if up t then relay cl t (inner t (cl t)) else (cl, forward_failed)

  module _ (owner : String → Option String) (up : String → Bool) (cl : Cluster V) where
    -- a publish at a node; `fresh` is the new id by node
    unfoldable pub publish_at :
        String → Bool → (String → String) → ℕ → String → V → Cluster V × Response V
    unfolding route
    publish_at me written fresh now q x =
        let at : String → QueueNode V → Outcome V =
          λ j. handle_publish owner j written (fresh j) now q (some x) in
        route up at cl me (at me (cl me))

    unfoldable pub consume_at : String → ℕ → String → Cluster V × Response V
    unfolding route
    consume_at me now q =
        let at : String → QueueNode V → Outcome V = λ j. handle_consume owner j now q in
        route up (λ j. handle_internal_dequeue owner j now q) cl me (at me (cl me))

    -- the publish is that of the owner
    pub publish_at-routes :
        (me t : String) (written : Bool) (fresh : String → String) (now : ℕ) (q : String) (x : V)
        → q ≢ ""
        → owner q ≡ some t
        → up t ≡ true
        → publish_at me written fresh now q x
          ≡ (put_node cl t (local_publish written (fresh t) now q x (cl t)), enqueued (fresh t))
    unfolding publish_at route relay handle_publish forward_reply
    publish_at-routes me t written fresh now q x ne own live = elim (dec_string t me) [
      | yes e ↦ ground arith
      | no e ↦ ground arith
    ]

    -- what a consumer at a node hears of the dequeue at the owner
    abbrev pub heard : String → String → Option (Delivery V) → Response V
    heard me t none = if is_some_me me (some t) then queue_empty else forward_failed
    heard me t (some d) = delivered d

    -- the consume is that of the owner
    pub consume_at-routes :
        (me t : String) (now : ℕ) (q : String)
        → q ≢ ""
        → owner q ≡ some t
        → up t ≡ true
        → let (n, d) = local_dequeue now q (cl t) in
          consume_at me now q ≡ (put_node cl t n, heard me t d)
    unfolding consume_at route relay handle_consume handle_internal_dequeue forward_reply dequeued
    consume_at-routes me t now q ne own live = elim (dec_string t me) [
      | yes e ↦ elim (Option-cases (local_dequeue now q (cl t)).1) [
        | inl empty ↦ ground arith
        | inr (d, there) ↦ ground arith
      ]
      | no e ↦ elim (Option-cases (local_dequeue now q (cl t)).1) [
        | inl empty ↦ ground arith
        | inr (d, there) ↦ ground arith
      ]
    ]
