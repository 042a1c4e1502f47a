-- ===== src/Realtime/Hub.antt =====
-- apps/api/internal/realtime/hub.go. Clients are numbered, as pointers are; their fields stand in a
-- heap, `object`. A `range` over a set of clients does its body once for each member. The hub's
-- mutex makes each method one step. `marshal` is encoding/json.
pub mod Subscriptions
pub mod Delivery
mod Tests
use skyward.Base.{
  ℕ, Bool, true, false, if◌then◌else◌, Option, none, some, List, [], ◌∷◌, ◌++◌, String, length, ltb,
  ◌==◌, nat_eq, string_eq,
}
use skyward.Base.Dict.{Dict, lookup, insert, erase}
use skyward.Base.Set.{mem, add, remove}

abbrev pub Bytes : Type 0
Bytes = List ℕ

-- A buffered Go channel. A send on a closed channel and a second close panic.
pub record Channel : Type 0 where
  pub buffer : List Bytes
  pub shut : Bool
  pub panicked : Bool

abbrev pub send_capacity : ℕ
send_capacity = 16

-- `channels` is `none` where the field is a nil map.
pub record Client : Type 0 where
  pub user_id : String
  pub send : Channel
  pub channels : Option (List String)
  pub closed : Bool

pub record Hub : Type 0 where
  pub clients : List ℕ
  pub channels : Dict String (List ℕ)
  pub object : ℕ → Client

unfoldable pub new_client : String → Client
new_client user_id = record {
  user_id = user_id;
  send = record { buffer = []; shut = false; panicked = false };
  channels = some [];
  closed = false;
}

unfoldable pub new_hub : (ℕ → Client) → Hub
new_hub object = record { clients = []; channels = []; object = object }

-- `select { case ch <- msg: default: }`
offer : Channel → Bytes → Channel × Bool
offer ch msg =
    if ch.shut
    then (record ch { panicked = true }, false)
    else if ltb (length ch.buffer) send_capacity
    then (record ch { buffer = ch.buffer ++ msg ∷ [] }, true)
    else (ch, false)

unfoldable pub try_send : Client → Bytes → Client × Bool
unfolding offer
try_send c msg =
    if c.closed
    then (c, false)
    else let (ch, sent) = offer c.send msg in (record c { send = ch }, sent)

close_channel : Channel → Channel
close_channel ch = if ch.shut then record ch { panicked = true } else record ch { shut = true }

unfoldable pub close_locked : Client → Client
unfolding close_channel
close_locked c = if c.closed then c else record c { closed = true; send = close_channel c.send }

abbrev pub write : {A : Type 0} → ℕ → A → (ℕ → A) → ℕ → A
write k v f j = if k == j then v else f j

-- `Client.Close`
unfoldable pub close : Hub → ℕ → Hub
close h c = record h { object = write c (close_locked (h.object c)) h.object }

unfoldable pub register : Hub → ℕ → Hub
register h c = record h { clients = add c h.clients }

put_set : String → List ℕ → Dict String (List ℕ) → Dict String (List ℕ)
put_set ch [] m = erase ch m
put_set ch (c ∷ set) m = insert ch (c ∷ set) m

-- The client leaves one channel, and an empty channel is deleted.
unfoldable pub leave : ℕ → String → Dict String (List ℕ) → Dict String (List ℕ)
unfolding put_set
leave c ch m = elim (lookup ch m) [ none ↦ m | some set ↦ put_set ch (remove c set) m ]

unfoldable pub leave_all : ℕ → List String → Dict String (List ℕ) → Dict String (List ℕ)
leave_all c [] m = m
leave_all c (ch ∷ chs) m = leave_all c chs (leave c ch m)

abbrev pub names : Option (List String) → List String
names none = []
names (some s) = s

unfoldable pub unregister : Hub → ℕ → Hub
unregister h c =
    let o = h.object c in
    record h {
      clients = remove c h.clients;
      channels = leave_all c (names o.channels) h.channels;
      object = write c (close_locked (record o { channels = none })) h.object;
    }

abbrev pub members : Dict String (List ℕ) → String → List ℕ
members m ch = elim (lookup ch m) [ none ↦ [] | some set ↦ set ]

unfoldable pub subscribe : Hub → ℕ → String → Hub
subscribe h c ch =
    let o = h.object c in
    record h {
      channels = insert ch (add c (members h.channels ch)) h.channels;
      object = write c (record o { channels = some (add ch (names o.channels)) }) h.object;
    }

abbrev drop_name : String → Option (List String) → Option (List String)
drop_name ch none = none
drop_name ch (some s) = some (remove ch s)

unfoldable pub unsubscribe : Hub → ℕ → String → Hub
unsubscribe h c ch =
    let o = h.object c in
    record h {
      channels = leave c ch h.channels;
      object = write c (record o { channels = drop_name ch o.channels }) h.object;
    }

pub record Event : Type 0 where
  pub type : String
  pub channel : String
  pub event : String
  pub at : String

-- `for c := range set { c.TrySend(msg) }`
unfoldable pub send_each : List ℕ → Bytes → (ℕ → Client) → ℕ → Client
send_each set msg object c = if mem c set then (try_send (object c) msg).0 else object c

-- The calls of the hub's methods and of `Client.TrySend`.
pub data Call : Type 0 where
  registers unregisters closes : ℕ → Call
  subscribes unsubscribes : ℕ → String → Call
  broadcasts : String → String → Call
  broadcasts_all : String → Call
  sends : ℕ → Bytes → Call

module _ (marshal : Event → Option Bytes) where
  broadcast_to : Hub → String → String → List ℕ → Hub
  broadcast_to h ch event [] = h
  broadcast_to h ch event (c ∷ set) =
      elim (marshal (record { type = "change"; channel = ch; event = event; at = "" })) [
        | none ↦ h
        | some msg ↦ record h { object = send_each (c ∷ set) msg h.object }
      ]

  unfoldable pub broadcast : Hub → String → String → Hub
  unfolding broadcast_to
  broadcast h ch event = broadcast_to h ch event (members h.channels ch)

  abbrev or_nil : Option Bytes → Bytes
  or_nil none = []
  or_nil (some msg) = msg

  unfoldable pub broadcast_all : Hub → String → Hub
  broadcast_all h event =
      let msg =
        or_nil (marshal (record { type = "change"; channel = ""; event = event; at = "" })) in
      record h { object = send_each h.clients msg h.object }

  unfoldable pub step : Hub → Call → Hub
  step h (registers c) = register h c
  step h (unregisters c) = unregister h c
  step h (closes c) = close h c
  step h (subscribes c ch) = subscribe h c ch
  step h (unsubscribes c ch) = unsubscribe h c ch
  step h (broadcasts ch event) = broadcast h ch event
  step h (broadcasts_all event) = broadcast_all h event
  step h (sends c msg) = record h { object = write c (try_send (h.object c) msg).0 h.object }

  unfoldable pub run : Hub → List Call → Hub
  run h [] = h
  run h (c ∷ cs) = run (step h c) cs
