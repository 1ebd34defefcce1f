-- ===== src/Pbft/Tests/Service.antt =====
-- Two operations that come to the service in the wrong order, over a crud that writes down what it
-- handles; and a restart between the two halves of an operation.
use bluzelle.Base.{
  ℕ, ◌≤◌, ◌<◌, ◌≡◌, refl, sym, subst, true, false, List, [], ◌∷◌, ◌++◌, none, some, length, ◌==◌,
  arith, Bool-cases, inl, inr, filter, any, ◌^◌,
}
use mathlib.Core.List.{Memᴰ}
use bluzelle.Bytes.{Bytes, bytes, bytes_lt, bytes_eq}
use bluzelle.Bytes.Order.{bytes_ordered, number_ordered}
use bluzelle.Map.{lookup, insert, erase}
use bluzelle.Storage
use bluzelle.Pbft.Operation.{
  Payload, Operation, construct, record_request, get_database_msg, has_db_request,
}
use bluzelle.Pbft.Service.{
  CrudBase, Wire, Service, Outcome, finished, failed, unfinished, to_string, digits, new_service,
  load_next_request_sequence, apply_operation, process_awaiting_operations, process, process_one,
  execute, serve, advance, save_next_request_sequence, backlog,
}
use bluzelle.Pbft.Service.Queue.{Executed, Ends, at_number}
use bluzelle.Pbft.Service.Entry.{while}
use bluzelle.Pbft.Service.Order.{
  Served, started, applied, executed_in_order, executed_all, apply_operation-Served,
}

abbrev diary : CrudBase (List Bytes) Bytes
diary = record {
  handle_request = λ sender msg session k. (k ++ msg ∷ [], true);
  save_state = λ k. (k, true);
  get_saved_state = λ k. none;
  load_state = λ state k. (k, true);
}

abbrev wire : Wire Bytes
wire = record {
  serialize = λ msg. msg;
  parse_db = λ t. (t, true);
  set_request_hash = λ hash msg. hash ++ msg;
  is_direct = λ msg. false;
  lexical_cast = λ t. none;
  is_open = λ id. true;
}

abbrev operation : ℕ → Bytes → Operation Bytes ℕ
operation n text =
    record_request (λ t. (t, true)) (λ t. (0, true)) (construct [] 0 1 n (bytes "#"))
      (record {
        sender = bytes "client";
        payload = Payload.database_msg text;
        signature = [];
        timestamp = 0;
      })

abbrev state_of : {S : Type 0} → Outcome S → S
state_of (finished s) = s
state_of (failed e s) = s
state_of (unfinished s) = s

abbrev fresh : Outcome (Service (List Bytes) Bytes ℕ)
fresh = new_service wire diary (bytes "node") Storage.empty []

abbrev after_second : Outcome (Service (List Bytes) Bytes ℕ)
after_second =
    apply_operation (while wire wire.is_open) diary (operation 2 (bytes "b"), some 7)
      (state_of fresh)

abbrev after_first : Outcome (Service (List Bytes) Bytes ℕ)
after_first =
    apply_operation (while wire wire.is_open) diary (operation 1 (bytes "a"), none)
      (state_of after_second)

fresh_finished : fresh ≡ finished (state_of fresh)
unfolding new_service load_next_request_sequence to_string digits Storage.create Storage.read
    Storage.add_record Storage.add32 lookup insert bytes_lt bytes_eq
fresh_finished = refl

after_second_finished : after_second ≡ finished (state_of after_second)
unfolding new_service load_next_request_sequence to_string digits Storage.create Storage.read
    Storage.add_record Storage.add32 lookup insert bytes_lt bytes_eq apply_operation
    process_awaiting_operations process process_one execute serve advance save_next_request_sequence
    backlog Storage.has Storage.get_keys Storage.update Storage.replace_record Storage.remove
    Storage.drop_record Storage.sub32 erase filter any construct record_request get_database_msg
    has_db_request
after_second_finished = refl

after_first_finished : after_first ≡ finished (state_of after_first)
unfolding new_service load_next_request_sequence to_string digits Storage.create Storage.read
    Storage.add_record Storage.add32 lookup insert bytes_lt bytes_eq apply_operation
    process_awaiting_operations process process_one execute serve advance save_next_request_sequence
    backlog Storage.has Storage.get_keys Storage.update Storage.replace_record Storage.remove
    Storage.drop_record Storage.sub32 erase filter any construct record_request get_database_msg
    has_db_request
after_first_finished = refl

-- The first request comes first though it came in last.
diary_in_order : (state_of after_first).crud ≡ bytes "#a" ∷ bytes "#b" ∷ []
unfolding new_service load_next_request_sequence to_string digits Storage.create Storage.read
    Storage.add_record Storage.add32 lookup insert bytes_lt bytes_eq apply_operation
    process_awaiting_operations process process_one execute serve advance save_next_request_sequence
    backlog Storage.has Storage.get_keys Storage.update Storage.replace_record Storage.remove
    Storage.drop_record Storage.sub32 erase filter any construct record_request get_database_msg
    has_db_request
diary_in_order = refl

nothing_there : (key : Bytes) → Storage.read Storage.empty (bytes "node") key ≡ none
unfolding Storage.read lookup
nothing_there key = refl

fresh-Served : Served wire diary [] [] (state_of fresh)
fresh-Served = started (bytes "node") Storage.empty nothing_there fresh_finished

message_of : (n : ℕ) (text : Bytes) → get_database_msg (operation n text) ≡ some text
unfolding construct record_request get_database_msg has_db_request
message_of n text = refl

sequence_of : (n : ℕ) (text : Bytes) → (operation n text).sequence ≡ n
unfolding construct record_request
sequence_of n text = refl

second-Served : Served wire diary [] (2 ∷ []) (state_of after_second)
unfolding construct record_request
second-Served =
    applied wire.is_open (operation 2 (bytes "b")) (some 7) (bytes "b") fresh-Served
      (message_of 2 (bytes "b")) (omega arith) (omega arith) after_second_finished

first-Served : Served wire diary [] (1 ∷ 2 ∷ []) (state_of after_first)
unfolding construct record_request
first-Served =
    applied wire.is_open (operation 1 (bytes "a")) none (bytes "a") second-Served
      (message_of 1 (bytes "a")) (omega arith) (omega arith) after_first_finished

both : (k : ℕ) → 1 ≤ k → k ≤ 2 → Memᴰ k (1 ∷ 2 ∷ [])
both k h l = elim (Bool-cases (k == 1)) [
  | inl z ↦ Memᴰ.head (ground (arith, z))
  | inr z ↦ Memᴰ.tail (Memᴰ.head (ground (arith, h, l, z)))
]

executed_in_order_example :
    Executed diary wire.set_request_hash wire.is_direct []
      (length (state_of after_first).executed)
      (state_of after_first).executed
      (state_of after_first).crud
executed_in_order_example = executed_in_order wire diary (λ d. refl) first-Served

executed_all_example : 2 ≤ length (state_of after_first).executed
executed_all_example = executed_all wire diary 2 (λ d. refl) first-Served both

apply_operation-Served_example :
    Ends wire diary
      (λ t.
        Served wire diary [] ((operation 1 (bytes "a")).sequence ∷ 2 ∷ []) t
        × (at_number t t.next_request_sequence ≡ none))
      (apply_operation
        (while wire wire.is_open)
        diary
        (operation 1 (bytes "a"), none)
        (state_of after_second))
apply_operation-Served_example =
    apply_operation-Served wire diary wire.is_open (operation 1 (bytes "a")) none (bytes "a")
      (λ d. refl) second-Served (message_of 1 (bytes "a")) (omega arith)
      (subst (λ n. n < 2 ^ 64) (sym (sequence_of 1 (bytes "a"))) (omega arith))

-- After a restart a stored request has no operation: it is dropped and crud never sees it.
abbrev restarted : Service (List Bytes) Bytes ℕ
restarted = record (state_of fresh) {
  unstable_storage =
      (Storage.create (state_of fresh).unstable_storage (bytes "node") (bytes "1") (bytes "a")).0;
}

dropped_after_restart :
    ((state_of (process_awaiting_operations wire diary restarted)).crud ≡ [])
    × ((state_of (process_awaiting_operations wire diary restarted)).next_request_sequence ≡ 2)
unfolding new_service load_next_request_sequence to_string digits Storage.create Storage.read
    Storage.add_record Storage.add32 lookup insert bytes_lt bytes_eq process_awaiting_operations
    process process_one execute advance save_next_request_sequence backlog Storage.has
    Storage.get_keys Storage.update Storage.replace_record Storage.remove Storage.drop_record
    Storage.sub32 erase filter any
dropped_after_restart = (refl, refl)
