-- ===== src/Realtime/Hub/Delivery.antt =====
-- What reaches a client's queue, and that no method panics (hub.go).
use skyward.Base.{
  ℕ, ◌≡◌, refl, false, not, ◌&&◌, if◌then◌else◌, Option, none, some, List, [], ◌∷◌, ◌++◌, String,
  arith, string_eq, nat_eq, length, ◌≤◌, ltb, length-append,
}
use skyward.Base.Set.{mem}
use skyward.Realtime.Hub.Subscriptions.{IsLinked}
use skyward.Realtime.Hub.{
  Bytes, Client, Hub, Event, new_client, try_send, close_locked, close, register, names, unregister,
  members, subscribe, unsubscribe, send_each, broadcast, broadcast_all, Call, registers,
  unregisters, closes, subscribes, unsubscribes, broadcasts, broadcasts_all, sends, step, run,
  write, send_capacity, broadcast_to,
}

-- The flag tells whether the channel is closed, the queue fits the channel, and nothing panicked.
pub record IsSound (c : Client) : Type 0 where
  pub flagged : c.send.shut ≡ c.closed
  pub fits : length c.send.buffer ≤ send_capacity
  pub calm : c.send.panicked ≡ false

pub new_client-IsSound : (user_id : String) → IsSound (new_client user_id)
unfolding new_client
new_client-IsSound user_id = ground arith

pub try_send-IsSound : (c : Client) (msg : Bytes) → IsSound c → IsSound (try_send c msg).0
unfolding try_send
try_send-IsSound c msg v = ground (arith, length-append c.send.buffer (msg ∷ []))

close_locked-IsSound : (c : Client) → IsSound c → IsSound (close_locked c)
unfolding close_locked
close_locked-IsSound c v = ground arith

abbrev pub AllSound : Hub → Type 0
AllSound h = (c : ℕ) → IsSound (h.object c)

write-IsSound :
    (object : ℕ → Client) (k c : ℕ) (o : Client)
    → IsSound (object c)
    → IsSound o
    → IsSound (write k o object c)
write-IsSound object k c o v w = ground arith

send_each-IsSound :
    (set : List ℕ) (msg : Bytes) (object : ℕ → Client) (c : ℕ)
    → IsSound (object c)
    → IsSound (send_each set msg object c)
unfolding send_each
send_each-IsSound set msg object c v = ground (arith, try_send-IsSound (object c) msg v)

-- An own set of channels is no part of soundness.
renamed-IsSound :
    (c : Client) (o : Option (List String)) → IsSound c → IsSound (record c { channels = o })
renamed-IsSound c o v = record { flagged = v.flagged; fits = v.fits; calm = v.calm }

module _ (marshal : Event → Option Bytes) where
  broadcast_to-IsSound :
      (h : Hub) (k event : String) (set : List ℕ) (c : ℕ)
      → IsSound (h.object c)
      → IsSound ((broadcast_to marshal h k event set).object c)
  unfolding broadcast_to
  broadcast_to-IsSound h k event [] c v = v
  broadcast_to-IsSound h k event (x ∷ set) c v =
      elim (marshal (record { type = "change"; channel = k; event = event; at = "" }))
        as (λ o.
          let h' : Hub = elim o [
            | none ↦ h
            | some msg ↦ record h { object = send_each (x ∷ set) msg h.object }
          ] in
          IsSound (h'.object c)) [
            | none ↦ v
            | some msg ↦ send_each-IsSound (x ∷ set) msg h.object c v
          ]

  pub step-AllSound : (h : Hub) (c : Call) → AllSound h → AllSound (step marshal h c)
  unfolding step register close broadcast broadcast_all unregister subscribe unsubscribe
  step-AllSound h (registers c) v x = v x
  step-AllSound h (unregisters c) v x =
      write-IsSound h.object c x _ (v x)
        (close_locked-IsSound _ (renamed-IsSound (h.object c) none (v c)))
  step-AllSound h (closes c) v x = write-IsSound h.object c x _ (v x) (close_locked-IsSound _ (v c))
  step-AllSound h (subscribes c k) v x =
      write-IsSound h.object c x _ (v x) (renamed-IsSound (h.object c) _ (v c))
  step-AllSound h (unsubscribes c k) v x =
      write-IsSound h.object c x _ (v x) (renamed-IsSound (h.object c) _ (v c))
  step-AllSound h (broadcasts k event) v x =
      broadcast_to-IsSound h k event (members h.channels k) x (v x)
  step-AllSound h (broadcasts_all event) v x = send_each-IsSound h.clients _ h.object x (v x)
  step-AllSound h (sends c msg) v x =
      write-IsSound h.object c x _ (v x) (try_send-IsSound (h.object c) msg (v c))

  -- From sound clients, no sequence of calls sends on a closed channel, closes one twice, or queues
  -- more than the channel's capacity; also where a client is closed and unregistered in any order.
  pub run-AllSound : (h : Hub) (cs : List Call) → AllSound h → AllSound (run marshal h cs)
  unfolding run
  run-AllSound h [] v = v
  run-AllSound h (c ∷ cs) v = run-AllSound (step marshal h c) cs (step-AllSound h c v)

  abbrev change : String → String → Event
  change k event = record { type = "change"; channel = k; event = event; at = "" }

  broadcast_to_reaches :
      (h : Hub) (k event : String) (set : List ℕ) (msg : Bytes) (c : ℕ)
      → marshal (change k event) ≡ some msg
      → IsSound (h.object c)
      → let o = h.object c in
        ((broadcast_to marshal h k event set).object c).send.buffer ≡ (
          if mem c set && not o.closed && ltb (length o.send.buffer) send_capacity
          then o.send.buffer ++ msg ∷ []
          else o.send.buffer)
  unfolding broadcast_to send_each try_send
  broadcast_to_reaches h k event [] msg c e v = refl
  broadcast_to_reaches h k event (x ∷ set) msg c e v = ground arith

  -- A broadcast appends its message to the queues of the clients whose own subscriptions have the
  -- channel, that are open and have room, and leaves every other queue as it is. The event can be
  -- marshalled, the two sides of the subscriptions agree, and the client is sound.
  pub broadcast_reaches :
      (h : Hub) (k event : String) (msg : Bytes) (c : ℕ)
      → marshal (change k event) ≡ some msg
      → IsLinked h
      → IsSound (h.object c)
      → let o = h.object c in
        ((broadcast marshal h k event).object c).send.buffer ≡ (
          if mem k (names o.channels) && not o.closed && ltb (length o.send.buffer) send_capacity
          then o.send.buffer ++ msg ∷ []
          else o.send.buffer)
  unfolding broadcast
  broadcast_reaches h k event msg c e l v =
      rw (← l c k) (broadcast_to_reaches h k event (members h.channels k) msg c e v)
