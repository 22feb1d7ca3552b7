-- ===== src/Core/Broker.antt =====
-- pkg/core/Broker.go. The routing map sends a routing key to the names of its queues. The order in
-- which Go's `range` visits a map, and the order in which the goroutines of one AddMessage get their
-- locks, are arguments.
use Prim.Native.String.{compare}
use text.Mathlib.Text.{is_le}
use sybline.Base.{
  ℕ, suc, String, Bool, true, false, Option, none, some, List, [], ◌∷◌, Bytes, length, ◌==◌, str_eq,
  if◌then◌else◌,
}
use sybline.Base.Dict
use sybline.Base.Dict.{Dict}
use sybline.Core.Run.{Run, ok, panic, ◌>>=◌}
use sybline.Core.QueueManager
use sybline.Core.QueueManager.{
  CoreError, invalid_queue_name, failed_queue_creation, missing_routing_key,
  routing_key_does_not_exist, queue_does_not_exist, queue_must_have_one_routing_key, empty_data,
  QueueManager,
}

abbrev pub Routing : Type 0
Routing = Dict (List String)

pub record Broker : Type 0 where
  pub routing : Routing
  pub manager : QueueManager

unfoldable pub new_broker : QueueManager → Broker
new_broker m = record { routing = []; manager = m }

abbrev pub Outcome : Type 0
Outcome = Run (Option CoreError × Broker)

-- sort.Strings
unfoldable pub insert_sorted : String → List String → List String
insert_sorted s [] = s ∷ []
insert_sorted s (t ∷ ts) = if is_le (compare s t) then s ∷ t ∷ ts else t ∷ insert_sorted s ts

unfoldable pub sort_strings : List String → List String
sort_strings [] = []
sort_strings (s ∷ ss) = insert_sorted s (sort_strings ss)

abbrev pub snoc : List String → String → List String
snoc [] s = s ∷ []
snoc (t ∷ ts) s = t ∷ snoc ts s

-- The names under a key after one more: `b.routing[key]` appended to and sorted, or a new list.
unfoldable pub add_route : (key name : String) → Routing → Routing
add_route key name routing = elim (Dict.get routing key) [
  | some names ↦ Dict.put routing key (sort_strings (snoc names name))
  | none ↦ Dict.put routing key (name ∷ [])
]

unfoldable pub create_queue :
    (name key : String) → (size retry_limit : ℕ) → Bool → Broker → Option CoreError × Broker
create_queue name key size retry_limit has_dlq b =
    if str_eq key ""
    then (some missing_routing_key, b)
    else let (err, m) = QueueManager.create_queue name size retry_limit has_dlq b.manager in
      elim err [
        | some e ↦ (some failed_queue_creation, record b { manager = m })
        | none ↦ (none, record { routing = add_route key name b.routing; manager = m })
      ]

-- `append(value[:i], value[i+1:]...)` for the first index `i` of the name, if there is one.
unfoldable pub cut_first : String → List String → Option (List String)
cut_first name [] = none
cut_first name (s ∷ ss) =
    let rest = cut_first name ss in
    if str_eq s name then some ss else elim rest [ none ↦ none | some ts ↦ some (s ∷ ts) ]

-- The loop of DeleteQueue over the keys, in the order in which the map is visited.
unfoldable pub delete_loop :
    (keys : List String) → (name : String) → Broker → Option CoreError × Broker
delete_loop [] name b = (none, b)
delete_loop (key ∷ keys) name b =
    let rest = delete_loop keys name b in
    elim (Dict.get b.routing key) [
      | none ↦ rest
      | some names ↦ elim (cut_first name names) [
        | none ↦ rest
        | some left ↦
            let (err, m) = QueueManager.delete name b.manager in
            elim err [
              | some e ↦ (some e, b)
              | none ↦ (none, record { routing = Dict.put b.routing key left; manager = m })
            ]
      ]
    ]

unfoldable pub delete_queue :
    (keys : List String) → (name : String) → Broker → Option CoreError × Broker
delete_queue keys name b = delete_loop keys name b

-- The goroutines of AddMessage, in the order `names`: errors are logged and dropped.
unfoldable pub deliver :
    (names : List String) → (message id : Bytes) → QueueManager → Run QueueManager
deliver [] message id m = ok m
deliver (name ∷ names) message id m = do
  (err, n) ← QueueManager.add_message name message id m
  deliver names message id n

unfoldable pub add_message :
    (schedule : List String → List String)
    → (key : String) → (message id : Bytes) → Broker
    → Outcome
add_message schedule key message id b =
    if length message == 0 then ok (some empty_data, b) else elim (Dict.get b.routing key) [
      | none ↦ ok (some routing_key_does_not_exist, b)
      | some names ↦ do
        m ← deliver (schedule names) message id b.manager
        ok (none, record b { manager = m })
    ]

unfoldable pub any_empty : List Bytes → Bool
any_empty [] = false
any_empty (d ∷ ds) = if length d == 0 then true else any_empty ds

unfoldable pub deliver_batch :
    (names : List String) → (messages ids : List Bytes) → QueueManager → Run QueueManager
deliver_batch [] messages ids m = ok m
deliver_batch (name ∷ names) messages ids m = do
  (err, n) ← QueueManager.batch_add_message name messages ids m
  deliver_batch names messages ids n

unfoldable pub batch_add_message :
    (schedule : List String → List String)
    → (key : String) → (messages ids : List Bytes) → Broker
    → Outcome
batch_add_message schedule key messages ids b =
    if any_empty messages then ok (some empty_data, b) else elim (Dict.get b.routing key) [
      | none ↦ ok (some routing_key_does_not_exist, b)
      | some names ↦ do
        m ← deliver_batch (schedule names) messages ids b.manager
        ok (none, record b { manager = m })
    ]

unfoldable pub add_route_key : (key name : String) → Broker → Option CoreError × Broker
add_route_key key name b =
    if str_eq key ""
    then (some missing_routing_key, b)
    else if str_eq name ""
    then (some invalid_queue_name, b)
    else if QueueManager.exists name b.manager
    then (none, record b { routing = add_route key name b.routing })
    else (some queue_does_not_exist, b)

unfoldable pub contains : List String → String → Bool
contains [] s = false
contains (t ∷ ts) s = if str_eq t s then true else contains ts s

-- `found`: the keys under which the name stands; the loop stops at two.
unfoldable pub count_keys : Routing → String → ℕ
count_keys [] name = 0
count_keys ((key, names) ∷ routing) name =
    let rest = count_keys routing name in if contains names name then suc rest else rest

-- An index of -1 makes the slice expression panic.
unfoldable pub delete_routing_key : (key name : String) → Broker → Outcome
delete_routing_key key name b =
    if str_eq key ""
    then ok (some missing_routing_key, b)
    else if str_eq name ""
    then ok (some invalid_queue_name, b)
    else if QueueManager.exists name b.manager
    then elim (Dict.get b.routing key) [
      | none ↦ ok (some missing_routing_key, b)
      | some names ↦
          if count_keys b.routing name == 1
          then ok (some queue_must_have_one_routing_key, b)
          else elim (cut_first name names) [
            | none ↦ panic
            | some left ↦ ok (none, record b { routing = Dict.put b.routing key left })
          ]
    ]
    else ok (some queue_does_not_exist, b)

unfoldable pub get_keys : Routing → List String
get_keys [] = []
get_keys ((key, names) ∷ routing) = key ∷ get_keys routing

unfoldable pub get_queues : String → Broker → Option (List String)
get_queues key b = Dict.get b.routing key
