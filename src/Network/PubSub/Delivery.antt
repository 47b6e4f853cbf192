-- ===== src/Network/PubSub/Delivery.antt =====
-- Who is subscribed after each operation, and whom a topic's message reaches.
use iot_dashboard_flutter.Common.{
  Bool, true, false, not, ◌&&◌, ◌||◌, ◌==◌, str_instance, nat_eq, is_empty, List, [], ◌∷◌, Str, ◌≡◌,
  refl, ap, sym, ◌∙◌, inl, inr, arith, Bool-cases, Option-cases,
}
use iot_dashboard_flutter.Common.Map.{lookup, lookup-insert, lookup-erase}
use iot_dashboard_flutter.Common.Sets.{has, add, remove, has-add, has-remove}
use iot_dashboard_flutter.Network.PubSub.{
  ConnectionId, WsServer, subscribe, unsubscribe, on_session_disconnected, subscribers, or_none,
  remove_everywhere,
}

has-is_empty :
    (j : ConnectionId) (ids : List ConnectionId) → is_empty ids ≡ true → has j ids ≡ false
unfolding has
has-is_empty j [] h = refl
has-is_empty j (i ∷ ids) h = absurd (ground (arith, h))

lookup-remove_everywhere :
    (id j : ConnectionId) (t : Str) (topics : List (Str × List ConnectionId))
    → has j (or_none (lookup t (remove_everywhere id topics)))
      ≡ (not (id == j) && has j (or_none (lookup t topics)))
unfolding lookup remove_everywhere has
lookup-remove_everywhere id j t [] = ground arith
lookup-remove_everywhere id j t ((topic, ids) ∷ topics) = elim (Bool-cases (topic == t)) [
  | inl same ↦ rw (same) (has-remove id j ids)
  | inr other ↦ rw (other) (lookup-remove_everywhere id j t topics)
]

module _ {Session : Type 0} where
  -- Whether a connection is among a topic's subscribers.
  unfoldable pub is_subscribed : ConnectionId → Str → WsServer Session → Bool
  unfolding subscribers
  is_subscribed id topic server = has id (subscribers topic server)

  -- Subscribing adds this connection to this topic and changes no other subscription.
  pub is_subscribed-subscribe :
      (id j : ConnectionId) (topic t : Str) (server : WsServer Session)
      → is_subscribed j t (subscribe id topic server)
        ≡ (topic == t && id == j || is_subscribed j t server)
  unfolding is_subscribed subscribers subscribe
  is_subscribed-subscribe id j topic t server =
      rw (lookup-insert topic t (add id (or_none (lookup topic server.topics))) server.topics)
        (elim (Bool-cases (topic == t)) [
          | inl same ↦
              rw (same, has-add id j (or_none (lookup topic server.topics)))
                (ap (λ x. id == j || has j (or_none (lookup x server.topics)))
                  ((str_instance.beq_iff topic t).0 same))
          | inr other ↦ rw (other)
        ])

  -- Unsubscribing takes this connection from this topic and changes no other subscription.
  pub is_subscribed-unsubscribe :
      (id j : ConnectionId) (topic t : Str) (server : WsServer Session)
      → is_subscribed j t (unsubscribe id topic server)
        ≡ (not (topic == t && id == j) && is_subscribed j t server)
  unfolding is_subscribed subscribers unsubscribe has
  is_subscribed-unsubscribe id j topic t server = elim (Option-cases (lookup topic server.topics)) [
    | inl missing ↦
        rw (missing, unsubscribe)
          (elim (Bool-cases (topic == t)) [
            | inl same ↦ rw (same, at_topic t same ∙ missing) (ground arith)
            | inr other ↦ rw (other)
          ])
    | inr (ids, found) ↦
        rw (found, unsubscribe)
          (elim (Bool-cases (is_empty (remove id ids))) [
            | inl empty ↦
                rw (empty, lookup-erase topic t server.topics)
                  (elim (Bool-cases (topic == t)) [
                    | inl same ↦
                        rw (same, at_topic t same ∙ found)
                          (ground
                            (arith, has-remove id j ids, has-is_empty j (remove id ids) empty))
                    | inr other ↦ rw (other)
                  ])
            | inr some_left ↦
                rw (some_left, lookup-insert topic t (remove id ids) server.topics)
                  (elim (Bool-cases (topic == t)) [
                    | inl same ↦ rw (same, at_topic t same ∙ found, has-remove id j ids)
                    | inr other ↦ rw (other)
                  ])
          ])
  ]
    where
      at_topic :
          (t : Str) → (topic == t) ≡ true → lookup t server.topics ≡ lookup topic server.topics
      at_topic t same =
          ap (λ x. lookup x server.topics) (sym ((str_instance.beq_iff topic t).0 same))

  -- A connection that ends is subscribed to nothing, and every other subscription stays.
  pub is_subscribed-on_session_disconnected :
      (id j : ConnectionId) (t : Str) (server : WsServer Session)
      → is_subscribed j t (on_session_disconnected id server)
        ≡ (not (id == j) && is_subscribed j t server)
  unfolding is_subscribed subscribers on_session_disconnected
  is_subscribed-on_session_disconnected id j t server =
      lookup-remove_everywhere id j t server.topics
