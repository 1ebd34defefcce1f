-- ===== src/Subscriptions/Tests.antt =====
-- Concrete subscriptions for crud/subscription_manager.cpp, and its theorems on them.
use bluzelle.Base.{
  refl, Bool, true, some, none, ◌==◌, not, ℕ, ◌≡◌, ◌||◌, [], ◌∷◌, none, if◌then◌else◌,
}
use bluzelle.Bytes.{Bytes, bytes}
use mathlib.Core.List.{Memᴰ}
use bluzelle.Subscriptions.Notify.{Told, next_seq, inspect_commit_lem}
use bluzelle.Subscriptions.Reachable.{
  started, subscribed, subscribe_then_commit, purge_closed_sessions_lem,
}
use bluzelle.Protocol.{Body, Event, Message, Request}
use bluzelle.Subscriptions.{
  Subscriptions, empty, subscribe, unsubscribe, msg_duplicate_sub, notice, inspect_commit,
  purge_closed_sessions,
}
use bluzelle.Subscriptions.Membership.{
  subscriber, same_place, present, refusal_below, subscribe_lem, unsubscribe_lem,
}
use bluzelle.Bytes.Order.{bytes_ordered}
use bluzelle.Map.{lookup}

abbrev db : Bytes
db = bytes "db"

abbrev key : Bytes
key = bytes "key"

-- Session 3 watches the key under transaction 7.
abbrev watched : Subscriptions
watched = record {
  subscribers = (db, (key, (3, (7, 3) ∷ []) ∷ []) ∷ []) ∷ [];
  key_seq_number = (db, (key, 0) ∷ []) ∷ [];
}

subscribe_lem_example :
    ((u k : Bytes) (s t : ℕ)
      → present (subscriber (subscribe watched db key 8 4).0 u k s t)
        ≡ same_place db u key k 4 s 8 t || present (subscriber watched u k s t))
    × ((subscribe watched db key 8 4).1 ≡ (
        if present (subscriber watched db key 4 8)
        then Body.error msg_duplicate_sub
        else Body.unset))
subscribe_lem_example = subscribe_lem watched db key 8 4

unsubscribe_lem_example :
    ((u k : Bytes) (s t : ℕ)
      → subscriber (unsubscribe watched db key 7 3).0 u k s t
        ≡ (if same_place db u key k 3 s 7 t then none else subscriber watched u k s t))
    × ((unsubscribe watched db key 7 3).1 ≡ (
        if present (subscriber watched db key 3 7)
        then Body.unset
        else Body.error (refusal_below key (lookup db watched.subscribers))))
unsubscribe_lem_example = unsubscribe_lem watched db key 7 3

-- A commit that changes the key.
abbrev commit : Request
commit = record {
  header = record { db_uuid = db; nonce = 1; point_of_contact = []; request_hash = [] };
  msg = Message.update key (bytes "value") 0;
}

-- Session 4 is gone.
abbrev alive : ℕ → Bool
alive session = not (session == 4)

inspect_commit_lem_example :
    Told alive watched db (some (true, key, bytes "value")) (inspect_commit alive watched commit)
inspect_commit_lem_example = inspect_commit_lem alive watched commit

subscribe_then_commit_example :
    Memᴰ
      (Event.notification 3
        (notice db key (bytes "value") true (next_seq (subscribe empty db key 7 3).0 db key) 7))
      (inspect_commit alive (subscribe empty db key 7 3).0 commit).1
subscribe_then_commit_example =
    subscribe_then_commit alive commit key (bytes "value") true 3 7 started refl refl

purge_closed_sessions_lem_example :
    subscriber (purge_closed_sessions alive (subscribe empty db key 8 4).0) db key 4 8
    ≡ (if alive 4 then subscriber (subscribe empty db key 8 4).0 db key 4 8 else none)
purge_closed_sessions_lem_example =
    purge_closed_sessions_lem alive db key 4 8 (subscribed db key 8 4 started)
