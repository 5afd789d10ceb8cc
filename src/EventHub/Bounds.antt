-- ===== src/EventHub/Bounds.antt =====
-- The queues of app/leaderboard_events.py stay within their bound.
use python_rng_game_platform.Base.{
  ℕ, ◌≤◌, ◌<◌, inl, inr, Bool, true, false, Bool-cases, List, [], ◌∷◌, none, some, leb,
  if◌then◌else◌, length, All, All-append, length-append, arith, Text, ◌==◌,
}
use python_rng_game_platform.EventHub.{
  LeaderboardChange, Signal, Subscription, without_oldest, offer, Hub, new_subscription, subscribe,
  is_registered, offer_all, publish, shutdown, close_at, close, receive_at, receive,
}

abbrev pub IsBounded : Subscription → Type 0
IsBounded s = (0 < s.queue_size) × (length s.queue ≤ s.queue_size)

without_oldest-length :
    (q : List Signal) (size : ℕ) → 0 < size → length q ≤ size → length (without_oldest q) < size
without_oldest-length [] size pos h = omega arith
without_oldest-length (x ∷ xs) size pos h = omega arith

either_way :
    {A : Type 0} (P : A → Type 0) (test : Bool) (x y : A) → P x → P y → P (if test then x else y)
either_way P true x y p q = p
either_way P false x y p q = q

offer-IsBounded : (event : Signal) (s : Subscription) → IsBounded s → IsBounded (offer event s)
unfolding offer
offer-IsBounded event s h = elim (Bool-cases s.is_closed) [
  | inl closed ↦ rw (closed, offer) h
  | inr live ↦ elim (Bool-cases (leb s.queue_size (length s.queue))) [
    | inl full ↦
        rw (live, full, offer)
          (
            h.0,
            rw (length-append (without_oldest s.queue) (event ∷ []))
                (omega (arith, without_oldest-length s.queue s.queue_size h.0 h.1)),
          )
    | inr room ↦
        rw (live, room, offer) (h.0, rw (length-append s.queue (event ∷ [])) (ground arith))
  ]
]

offer_all-IsBounded :
    (wants : Subscription → Bool) (event : Signal) (subscriptions : List Subscription)
    → All IsBounded subscriptions
    → All IsBounded (offer_all wants event subscriptions)
unfolding offer_all
offer_all-IsBounded wants event [] h = h
offer_all-IsBounded wants event (s ∷ rest) h = elim (Bool-cases (wants s)) [
  | inl wanted ↦
      rw (wanted, offer_all) (offer-IsBounded event s h.0, offer_all-IsBounded wants event rest h.1)
  | inr other ↦ rw (other, offer_all) (h.0, offer_all-IsBounded wants event rest h.1)
]

close_at-IsBounded :
    (id : ℕ) (subscriptions : List Subscription)
    → All IsBounded subscriptions
    → All IsBounded (close_at id subscriptions)
close_at-IsBounded id [] h = h
close_at-IsBounded id (s ∷ rest) h = elim (Bool-cases (s.id == id)) [
  | inl here ↦ rw (here, close_at) (h.0, close_at-IsBounded id rest h.1)
  | inr other ↦ rw (other, close_at) (h.0, close_at-IsBounded id rest h.1)
]

receive_at-IsBounded :
    (id : ℕ) (subscriptions : List Subscription)
    → All IsBounded subscriptions
    → All IsBounded (receive_at id subscriptions)
receive_at-IsBounded id [] h = h
receive_at-IsBounded id (s ∷ rest) h = elim (Bool-cases (s.id == id)) [
  | inl here ↦
      rw (here, receive_at)
        (
          (h.0.0, omega (arith, without_oldest-length s.queue s.queue_size h.0.0 h.0.1)),
          receive_at-IsBounded id rest h.1,
        )
  | inr other ↦ rw (other, receive_at) (h.0, receive_at-IsBounded id rest h.1)
]

-- One step of the hub.
pub data Step : Hub → Hub → Type 0 where
  subscribes :
      (id : ℕ) (game_key : Text) (period_start : ℕ) (hub : Hub)
      → Step hub (subscribe id game_key period_start hub)
  publishes : (event : LeaderboardChange) (hub : Hub) → Step hub (publish event hub)
  closes : (id : ℕ) (hub : Hub) → Step hub (close id hub)
  receives : (id : ℕ) (hub : Hub) → Step hub (receive id hub)
  shuts_down : (hub : Hub) → Step hub (shutdown hub)

-- The hub's own bound is positive, and every subscription's queue is within its bound.
pub record IsHub (hub : Hub) : Type 0 where
  pub positive : 0 < hub.queue_size
  pub bounded : All IsBounded hub.subscriptions

subscribe-IsHub :
    (id : ℕ) (game_key : Text) (period_start : ℕ) (hub : Hub)
    → IsHub hub
    → IsHub (subscribe id game_key period_start hub)
unfolding subscribe
subscribe-IsHub id game_key period_start hub h =
    let s = new_subscription id game_key period_start hub.queue_size in
    let fits : IsBounded s = (h.positive, omega arith) in
    elim (Bool-cases hub.is_shutdown) [
      | inl over ↦
          rw (over, subscribe)
            (record {
              positive = h.positive;
              bounded =
                  All-append IsBounded hub.subscriptions (offer none s ∷ []) h.bounded
                    (offer-IsBounded none s fits, tt);
            })
      | inr live ↦
          rw (live, subscribe)
            (record {
              positive = h.positive;
              bounded = All-append IsBounded hub.subscriptions (s ∷ []) h.bounded (fits, tt);
            })
    ]

shutdown-IsHub : (hub : Hub) → IsHub hub → IsHub (shutdown hub)
unfolding shutdown
shutdown-IsHub hub h = either_way IsHub hub.is_shutdown _ _ h (record {
  positive = h.positive;
  bounded = offer_all-IsBounded (is_registered hub) none hub.subscriptions h.bounded;
})

-- Every step of the hub, a subscription, a publication, a delivery, a close or the shutdown, keeps each
-- queue within its bound.
pub Step-IsHub : {before after : Hub} → Step before after → IsHub before → IsHub after
unfolding publish close receive
Step-IsHub (subscribes id game_key period_start hub) h =
    subscribe-IsHub id game_key period_start hub h
Step-IsHub (publishes event hub) h = record {
  positive = h.positive;
  bounded = offer_all-IsBounded _ (some event) hub.subscriptions h.bounded;
}
Step-IsHub (closes id hub) h = record {
  positive = h.positive;
  bounded = close_at-IsBounded id hub.subscriptions h.bounded;
}
Step-IsHub (receives id hub) h = record {
  positive = h.positive;
  bounded = receive_at-IsBounded id hub.subscriptions h.bounded;
}
Step-IsHub (shuts_down hub) h = shutdown-IsHub hub h
