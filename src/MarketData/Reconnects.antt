-- ===== src/MarketData/Reconnects.antt =====
-- The runs of `MarketDataSubscriptionManager`
-- (modules/market-data/application/subscription-manager.ts): the parts of its methods in any order,
-- each with any generation.
use cryptox.Base.{
  ℕ, suc, ◌+◌, ◌≤◌, ◌≡◌, ◌⊎◌, inl, inr, refl, sym, ap, ◌∙◌, arith, Bool, true, false, none, some,
  List, ◌∷◌, Text, subst, ◌++◌, replicate,
}
use cryptox.MarketData.Manager.{
  reconnecting, disconnected, Subscription, Manager, is_stale, set_subscriptions, connect,
  subscriptions_closed, is_empty_list, stop, stop_closed, connection_opened, schedule_reconnect,
  connection_failed, connection_ready, connection_unready, handle_disconnect, timer_fired,
}

-- The attempts are bounded, and a stopped manager holds neither a connection nor a timer.
abbrev pub Sound : ℕ → Manager → Type 0
Sound maximum_attempts m =
    (m.reconnect_attempt ≤ maximum_attempts)
    × ((m.stopped ≡ false) ⊎ ((m.connection ≡ none) × (m.reconnect_timer ≡ none)))

module _ (key_text : Subscription → Text) (maximum_attempts : ℕ) where
  pub data Step (m m' : Manager) : Type 0 where
    sets :
        (subscriptions : List Subscription)
        → m' ≡ set_subscriptions key_text subscriptions m
        → Step m m'
    sets_closed :
        (g : ℕ) (next_is_empty : Bool) → m' ≡ subscriptions_closed g next_is_empty m → Step m m'
    stops : m' ≡ stop m → Step m m'
    stops_closed : m.stopped ≡ true → m' ≡ stop_closed m → Step m m'
    opens : (g c : ℕ) → m' ≡ connection_opened g c m → Step m m'
    fails : (g : ℕ) → m' ≡ connection_failed maximum_attempts g m → Step m m'
    readies : (g : ℕ) → m' ≡ connection_ready maximum_attempts g m → Step m m'
    unreadies : (g : ℕ) → m' ≡ connection_unready maximum_attempts g m → Step m m'
    disconnects : (g : ℕ) → m' ≡ handle_disconnect maximum_attempts g m → Step m m'
    fires : m' ≡ timer_fired m → Step m m'

  pub data Steps (m : Manager) : Manager → Type 0 where
    here : Steps m m
    next : {n k : Manager} → Steps m n → Step n k → Steps m k

  Step-Sound : (m m' : Manager) → Sound maximum_attempts m → Step m m' → Sound maximum_attempts m'
  unfolding set_subscriptions connect subscriptions_closed stop stop_closed connection_opened
      connection_ready schedule_reconnect connection_failed connection_unready handle_disconnect
      timer_fired
  Step-Sound m m' v (sets ss e) = subst (Sound maximum_attempts) (sym e) (ground (arith, v))
  Step-Sound m m' v (sets_closed g b e) = subst (Sound maximum_attempts) (sym e) (ground (arith, v))
  Step-Sound m m' v (stops e) = subst (Sound maximum_attempts) (sym e) (ground (arith, v))
  Step-Sound m m' v (stops_closed h e) = subst (Sound maximum_attempts) (sym e) (ground (arith, v))
  Step-Sound m m' v (opens g c e) = subst (Sound maximum_attempts) (sym e) (ground (arith, v))
  Step-Sound m m' v (fails g e) = subst (Sound maximum_attempts) (sym e) (ground (arith, v))
  Step-Sound m m' v (readies g e) = subst (Sound maximum_attempts) (sym e) (ground (arith, v))
  Step-Sound m m' v (unreadies g e) = subst (Sound maximum_attempts) (sym e) (ground (arith, v))
  Step-Sound m m' v (disconnects g e) = subst (Sound maximum_attempts) (sym e) (ground (arith, v))
  Step-Sound m m' v (fires e) = subst (Sound maximum_attempts) (sym e) (ground (arith, v))

  -- A stopped manager stays stopped, and reports nothing but that it is disconnected.
  abbrev Silent : Manager → Manager → Type 0
  Silent m m' =
      (m'.stopped ≡ true) × ((m'.statuses ≡ m.statuses) ⊎ (m'.statuses ≡ disconnected ∷ m.statuses))

  Step-Silent : (m m' : Manager) → m.stopped ≡ true → Step m m' → Silent m m'
  unfolding set_subscriptions connect subscriptions_closed stop stop_closed connection_opened
      connection_ready schedule_reconnect connection_failed connection_unready handle_disconnect
      timer_fired
  Step-Silent m m' s (sets ss e) = subst (Silent m) (sym e) (ground (arith, s))
  Step-Silent m m' s (sets_closed g b e) = subst (Silent m) (sym e) (ground (arith, s))
  Step-Silent m m' s (stops e) = subst (Silent m) (sym e) (ground (arith, s))
  Step-Silent m m' s (stops_closed h e) = subst (Silent m) (sym e) (ground (arith, s))
  Step-Silent m m' s (opens g c e) = subst (Silent m) (sym e) (ground (arith, s))
  Step-Silent m m' s (fails g e) = subst (Silent m) (sym e) (ground (arith, s))
  Step-Silent m m' s (readies g e) = subst (Silent m) (sym e) (ground (arith, s))
  Step-Silent m m' s (unreadies g e) = subst (Silent m) (sym e) (ground (arith, s))
  Step-Silent m m' s (disconnects g e) = subst (Silent m) (sym e) (ground (arith, s))
  Step-Silent m m' s (fires e) = subst (Silent m) (sym e) (ground (arith, s))

  -- Through all steps, the attempts to reconnect stay bounded, and a stopped manager holds neither a
  -- connection nor a timer.
  pub Steps-Sound :
      (m m' : Manager) → Sound maximum_attempts m → Steps m m' → Sound maximum_attempts m'
  Steps-Sound m m' v here = v
  Steps-Sound m m' v (next {n} p s) = Step-Sound n m' (Steps-Sound m n v p) s

  -- Once stopped, a manager stays stopped, and all that it reports is that it is disconnected.
  pub Steps-Silent :
      (m m' : Manager)
      → m.stopped ≡ true
      → Steps m m'
      → (m'.stopped ≡ true) × (n : ℕ) × (m'.statuses ≡ replicate n disconnected ++ m.statuses)
  Steps-Silent m m' s here = (s, 0, refl)
  Steps-Silent m m' s (next {n} p t) =
      let (s', count, reports) = Steps-Silent m n s p in
      let (s'', reported) = Step-Silent n m' s' t in
      elim reported [
        | inl same ↦ (s'', count, same ∙ reports)
        | inr more ↦ (s'', suc count, more ∙ ap (◌∷◌ disconnected) reports)
      ]

-- The connection of new subscriptions is opened.
abbrev pub reopened : ℕ → ℕ → Manager → Manager
reopened g c k = connection_opened g c (subscriptions_closed g false k)

changed_subscriptions :
    (key_text : Subscription → Text) (subscriptions : List Subscription) (m : Manager)
    → m.stopped ≡ false
    → (set_subscriptions key_text subscriptions m).generation ≡ m.generation + 1
    → ((set_subscriptions key_text subscriptions m).stopped ≡ false)
      × ((set_subscriptions key_text subscriptions m).reconnect_timer ≡ none)
unfolding set_subscriptions
changed_subscriptions key_text subscriptions m going changed = ground arith

-- A connection of an old generation fails while one of the present generation is there.
abbrev pub Drops : ℕ → Manager → Manager → Type 0
Drops c n n' =
    (n.connection ≡ some c)
    × ((stop n).closed ≡ c ∷ n.closed)
    × (n'.connection ≡ none)
    × (n'.reconnect_timer ≡ none)
    × (n'.statuses ≡ n.statuses)
    × (n'.stopped ≡ false)
    × ((stop n').closed ≡ n.closed)

module _ (maximum_attempts : ℕ) where
  -- A connection whose timer to reconnect runs, because `onConnected` failed on it, is lost when it
  -- is disconnected: the timer's generation is stale when it fires, and no connection is left, no
  -- timer, and no generation that the manager acts on.
  pub handle_disconnect-strands :
      (g : ℕ) (m : Manager)
      → is_stale g m ≡ false
      → m.reconnect_timer ≡ some g
      → let m' = timer_fired (handle_disconnect maximum_attempts g m) in
        (m'.connection ≡ none)
        × (m'.reconnect_timer ≡ none)
        × (m'.statuses ≡ reconnecting ∷ m.statuses)
        × (m'.stopped ≡ false)
        × is_stale g m' ≡ true
  unfolding handle_disconnect schedule_reconnect timer_fired connect
  handle_disconnect-strands g m current timed = ground arith

  late_failure :
      (g c : ℕ) (k : Manager)
      → k.stopped ≡ false
      → k.reconnect_timer ≡ none
      → k.generation ≡ g + 1
      → is_empty_list k.desired ≡ false
      → Drops c (reopened (g + 1) c k) (connection_failed maximum_attempts g (reopened (g + 1) c k))
  unfolding connection_failed connect subscriptions_closed connection_opened stop
  late_failure g c k going untimed changed wanted = ground arith

  -- Where the subscriptions change to some others while a connection is opened, and that of the new
  -- ones is there when the old one fails: the new one, which a stop would have closed, is dropped
  -- with no attempt to reconnect and no report, and a stop then closes nothing.
  pub connection_failed-Drops :
      (key_text : Subscription → Text) (subscriptions : List Subscription) (c : ℕ) (m : Manager)
      → m.stopped ≡ false
      → (set_subscriptions key_text subscriptions m).generation ≡ m.generation + 1
      → is_empty_list (set_subscriptions key_text subscriptions m).desired ≡ false
      → Drops c (reopened (m.generation + 1) c (set_subscriptions key_text subscriptions m)) (
          connection_failed maximum_attempts m.generation
            (reopened (m.generation + 1) c (set_subscriptions key_text subscriptions m)))
  connection_failed-Drops key_text subscriptions c m going changed wanted =
      let (goes_on, untimed) = changed_subscriptions key_text subscriptions m going changed in
      late_failure m.generation c (set_subscriptions key_text subscriptions m) goes_on untimed
        changed wanted
