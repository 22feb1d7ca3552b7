-- ===== src/Tests/Shelf.antt =====
-- The commands of a queue manager of pkg/core, one after the other.
use sybline.Base.{◌≡◌, refl, false, List, [], ◌∷◌, Bytes, true, arith}
use sybline.Core.Run.{panic}
use sybline.Core.Shelf.Fatal.{rounds, create_queue-panic}
use sybline.Core.QueueManager.{new_queue_manager}
use sybline.Core.Shelf.{
  create, submit, take, ack, nack, delete, Command, manage_all, specified_all, new_shelf,
}
use sybline.Core.Shelf.Follows.{Follows}
use sybline.Core.Shelf.Refines.{manage_all-Follows}

abbrev consumer : Bytes
consumer = 7 ∷ []

abbrev other : Bytes
other = 8 ∷ []

abbrev message : Bytes
message = 65 ∷ []

abbrev first_id : Bytes
first_id = 1 ∷ []

abbrev second_id : Bytes
second_id = 2 ∷ []

-- A message expires, and its letter is read after another queue has taken over the name.
abbrev commands : List Command
commands =
    create "jobs" 10 1 true
    ∷ submit "jobs" message first_id
    ∷ submit "jobs" message second_id
    ∷ take "jobs" 1 consumer 5
    ∷ nack "jobs" other first_id
    ∷ nack "jobs" consumer first_id
    ∷ take "jobs-dlq" 1 other 6
    ∷ ack "jobs-dlq" other first_id
    ∷ delete "jobs-dlq"
    ∷ take "jobs" 1 consumer 7
    ∷ nack "jobs" consumer second_id
    ∷ []

manage_all-Follows_example :
    Follows (specified_all commands (new_shelf 100)) (manage_all commands (new_queue_manager 100))
manage_all-Follows_example = manage_all-Follows 100 commands (omega arith)

create_queue-panic_example :
    manage_all
      (create "jobs" 10 2 false
        ∷ submit "jobs" message first_id
        ∷ rounds "jobs" consumer first_id (5 ∷ 6 ∷ []))
      (new_queue_manager 100)
    ≡ panic
create_queue-panic_example =
    create_queue-panic 100 "jobs" 10 2 message first_id consumer (5 ∷ 6 ∷ []) refl (omega arith)
      (omega arith) (omega arith) (omega arith) refl
