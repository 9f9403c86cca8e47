-- ===== src/Events.antt =====
-- internal/events: the events that happen, and the bus that logs them and offers them to subscribers.
pub mod Display
pub mod Record
pub mod Queue
use haigosmart.Base.{
  ℕ, ◌+◌, List, [], ◌∷◌, ◌++◌, Bool, true, false, not, ltb, leb, ◌==◌, length, if◌then◌else◌,
}
use haigosmart.Base.Text.{Str, codes, is_empty}
use haigosmart.Bulb.{FieldChange}

pub data Kind : Type 0 where
  state_changed connected disconnected discovered command_result protocol_error duplicate_id : Kind
  renamed rejected : Kind

pub record Event : Type 0 where
  pub at : ℕ
  pub kind : Kind
  pub device_id : Str
  pub name : Str
  pub changed : List FieldChange
  pub detail : Str

unfoldable pub label : Event → Str
unfolding is_empty
label e =
    if not (is_empty e.name)
    then e.name
    else if not (is_empty e.device_id)
    then e.device_id
    else codes "server"

-- A subscriber's channel, the oldest event first, and how many events never reached it. The `ident`
-- is its address.
pub record Subscription : Type 0 where
  pub ident : ℕ
  pub queue : List Event
  pub depth : ℕ
  pub dropped : ℕ

-- `log` is what has been logged, the first record first; `next` the next fresh address.
pub record Bus : Type 0 where
  pub subs : List Subscription
  pub log : List Event
  pub next : ℕ

abbrev pub new_bus : Bus
new_bus = record { subs = []; log = []; next = 0 }

unfoldable pub subscribe : Bus → ℕ → Bus × Subscription
subscribe b depth =
    let s : Subscription = record {
      ident = b.next;
      queue = [];
      depth = if ltb depth 1 then 1 else depth;
      dropped = 0;
    } in
    (record b { subs = b.subs ++ (s ∷ []); next = b.next + 1 }, s)

-- The three selects of `offer`: send if there is room, evict the oldest, send or drop. Each is one step.
unfoldable pub has_room : Subscription → Bool
has_room s = ltb (length s.queue) s.depth

unfoldable pub send : Subscription → Event → Subscription
send s e = record s { queue = s.queue ++ (e ∷ []) }

unfoldable pub evict : Subscription → Subscription
evict s = elim s.queue [ [] ↦ s | e ∷ es ↦ record s { queue = es; dropped = s.dropped + 1 } ]

unfoldable pub send_or_drop : Subscription → Event → Subscription
unfolding has_room send
send_or_drop s e = if has_room s then send s e else record s { dropped = s.dropped + 1 }

unfoldable pub offer : Subscription → Event → Subscription
unfolding has_room send evict send_or_drop
offer s e = if has_room s then send s e else send_or_drop (evict s) e

-- A receive from the channel that does not block.
unfoldable pub receive : Subscription → Subscription
receive s = elim s.queue [ [] ↦ s | e ∷ es ↦ record s { queue = es } ]

abbrev offer_each : List Subscription → Event → List Subscription
offer_each [] e = []
offer_each (s ∷ ss) e = offer s e ∷ offer_each ss e

unfoldable pub publish : Bus → Event → Bus
publish b e = record b { log = b.log ++ (e ∷ []); subs = offer_each b.subs e }

-- The first subscription with the address goes.
abbrev remove : List Subscription → ℕ → List Subscription
remove [] i = []
remove (s ∷ ss) i = let rest = remove ss i in if s.ident == i then ss else s ∷ rest

unfoldable pub close : Bus → ℕ → Bus
close b i = record b { subs = remove b.subs i }
