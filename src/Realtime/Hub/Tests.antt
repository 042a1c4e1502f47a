-- ===== src/Realtime/Hub/Tests.antt =====
-- Runs of the hub (hub.go), and its theorems at concrete inputs.
use skyward.Base.{◌≡◌, refl, true, Option, some, List, [], ◌∷◌, string_eq}
use skyward.Base.Set.{mem}
use skyward.Realtime.Hub.{
  Bytes, Hub, Event, new_client, new_hub, names, broadcast, Call, registers, unregisters, closes,
  subscribes, unsubscribes, broadcasts, step, run, register, subscribe, unsubscribe, unregister,
  close_locked, leave, leave_all, try_send, send_each, close,
}
use skyward.Realtime.Hub.Subscriptions.{
  listed, wants, run-wants, new_hub-IsLinked, IsLinked, step-IsLinked,
}
use skyward.Realtime.Hub.Delivery.{
  AllSound, step-AllSound, new_client-IsSound, run-AllSound, broadcast_reaches,
}

-- Every event is sent as one byte.
abbrev to_bytes : Event → Option Bytes
to_bytes e = some (7 ∷ [])

abbrev start : Hub
start = new_hub (λ c. new_client "u")

start-IsLinked : IsLinked start
unfolding new_client
start-IsLinked = new_hub-IsLinked (λ c. new_client "u") (λ c. refl)

start-AllSound : AllSound start
unfolding new_hub
start-AllSound c = new_client-IsSound "u"

abbrev session : List Call
session =
    registers 1
    ∷ subscribes 1 "users"
    ∷ subscribes 2 "users"
    ∷ subscribes 2 "loans"
    ∷ unsubscribes 2 "users"
    ∷ broadcasts "users" "UPDATE"
    ∷ unregisters 2
    ∷ closes 2
    ∷ []

delivered : ((run to_bytes start session).object 1).send.buffer ≡ (7 ∷ []) ∷ []
unfolding run step new_hub new_client register subscribe unsubscribe unregister close_locked leave
    leave_all try_send send_each broadcast close
delivered = refl

-- A message that the read pump had already taken can subscribe a client that the write pump has
-- unregistered: the hub keeps it listed, closed.
subscribe_after_unregister :
    listed
      (run to_bytes start
        (subscribes 1 "users" ∷ unregisters 1 ∷ subscribes 1 "loans" ∷ [])).channels
      1
      "loans"
    ≡ true
unfolding run step new_hub new_client subscribe unregister close_locked leave leave_all
subscribe_after_unregister = refl

run-wants_example :
    (listed (run to_bytes start session).channels 2 "loans"
      ≡ wants session (listed start.channels) 2 "loans")
    × (mem "loans" (names ((run to_bytes start session).object 2).channels)
        ≡ wants session (listed start.channels) 2 "loans")
run-wants_example = run-wants to_bytes start session 2 "loans" start-IsLinked

run-AllSound_example : AllSound (run to_bytes start session)
run-AllSound_example = run-AllSound to_bytes start session start-AllSound

abbrev joined : Hub
joined = step to_bytes start (subscribes 1 "users")

broadcast_reaches_example :
    ((broadcast to_bytes joined "users" "UPDATE").object 1).send.buffer ≡ (7 ∷ []) ∷ []
unfolding step new_hub new_client subscribe
broadcast_reaches_example =
    broadcast_reaches to_bytes joined "users" "UPDATE" (7 ∷ []) 1 refl
      (step-IsLinked to_bytes start (subscribes 1 "users") start-IsLinked)
      (step-AllSound to_bytes start (subscribes 1 "users") start-AllSound 1)
