-- ===== src/EventHub.antt =====
-- app/leaderboard_events.py: bounded queues of invalidations, one for each subscriber. The hub's set of
-- subscriptions is a list of their identifiers; the subscriptions themselves are a list of objects.
pub mod Bounds
use python_rng_game_platform.Base.{
  ℕ, ◌+◌, Bool, true, false, not, ◌&&◌, List, [], ◌∷◌, ◌++◌, Option, none, some, ltb, leb, ◌==◌,
  ◌==ˢ◌, if◌then◌else◌, Text, length, any, select,
}

pub record LeaderboardChange : Type 0 where
  pub game_key : Text
  pub period_start : ℕ

-- A queued item; `none` is the sentinel of a shutdown.
abbrev pub Signal : Type 0
Signal = Option LeaderboardChange

pub record Subscription : Type 0 where
  pub id : ℕ
  pub game_key : Text
  pub period_start : ℕ
  pub queue_size : ℕ
  pub queue : List Signal
  pub is_closed : Bool

-- `get_nowait`, on a queue that is not empty.
abbrev pub without_oldest : List Signal → List Signal
without_oldest [] = []
without_oldest (x ∷ xs) = xs

-- `_offer`: a full queue drops its oldest item.
unfoldable pub offer : Signal → Subscription → Subscription
offer event s = if s.is_closed then s else record s {
  queue =
      (if leb s.queue_size (length s.queue) then without_oldest s.queue else s.queue) ++ event ∷ [];
}

-- What `receive` answers, when an item waits.
abbrev pub next_signal : List Signal → Option Signal
next_signal [] = none
next_signal (x ∷ xs) = some x

pub record Hub : Type 0 where
  pub queue_size : ℕ
  pub subscriptions : List Subscription
  pub registered : List ℕ
  pub is_shutdown : Bool

-- `LeaderboardEventHub(queue_size=...)`; none is the `ValueError`.
pub new_hub : ℕ → Option Hub
new_hub queue_size =
    if ltb queue_size 1
    then none
    else some (record {
      queue_size = queue_size;
      subscriptions = [];
      registered = [];
      is_shutdown = false;
    })

abbrev pub new_subscription : ℕ → Text → ℕ → ℕ → Subscription
new_subscription id game_key period_start queue_size = record {
  id = id;
  game_key = game_key;
  period_start = period_start;
  queue_size = queue_size;
  queue = [];
  is_closed = false;
}

unfoldable pub subscribe : ℕ → Text → ℕ → Hub → Hub
unfolding offer
subscribe id game_key period_start hub =
    let s = new_subscription id game_key period_start hub.queue_size in
    if hub.is_shutdown
    then record hub { subscriptions = hub.subscriptions ++ offer none s ∷ [] }
    else record hub {
      subscriptions = hub.subscriptions ++ s ∷ [];
      registered = hub.registered ++ id ∷ [];
    }

abbrev pub is_registered : Hub → Subscription → Bool
is_registered hub s = any (λ id. id == s.id) hub.registered

-- Offering to the subscriptions that pass a test.
unfoldable pub offer_all : (Subscription → Bool) → Signal → List Subscription → List Subscription
unfolding offer
offer_all wants event [] = []
offer_all wants event (s ∷ rest) =
    (if wants s then offer event s else s) ∷ offer_all wants event rest

unfoldable pub publish : LeaderboardChange → Hub → Hub
unfolding offer_all
publish event hub = record hub {
  subscriptions =
      offer_all
        (λ s.
          is_registered hub s
          && (s.game_key ==ˢ event.game_key && s.period_start == event.period_start))
        (some event) hub.subscriptions;
}

unfoldable pub shutdown : Hub → Hub
unfolding offer_all
shutdown hub = if hub.is_shutdown then hub else record hub {
  subscriptions = offer_all (is_registered hub) none hub.subscriptions;
  registered = [];
  is_shutdown = true;
}

abbrev pub close_at : ℕ → List Subscription → List Subscription
close_at id [] = []
close_at id (s ∷ rest) =
    (if s.id == id then record s { is_closed = true } else s) ∷ close_at id rest

-- `close`, with the `unsubscribe` that follows it.
unfoldable pub close : ℕ → Hub → Hub
close id hub = record hub {
  subscriptions = close_at id hub.subscriptions;
  registered = select (λ other. not (other == id)) hub.registered;
}

abbrev pub receive_at : ℕ → List Subscription → List Subscription
receive_at id [] = []
receive_at id (s ∷ rest) =
    (if s.id == id then record s { queue = without_oldest s.queue } else s) ∷ receive_at id rest

-- `receive` of a subscription takes the oldest item off its queue.
unfoldable pub receive : ℕ → Hub → Hub
receive id hub = record hub { subscriptions = receive_at id hub.subscriptions }
