-- ===== src/Subscriptions.antt =====
-- crud/subscription_manager.cpp: who is notified of the changes of a key. Subscriptions are kept by
-- database, key, session and transaction; a session is held weakly, so it may be gone when it is
-- to be notified. `alive` says which sessions still exist. The timer is not modelled.
pub mod Membership
pub mod Notify
pub mod Purge
pub mod Reachable
pub mod Tests
use bluzelle.Base.{
  ℕ, ◌+◌, ◌%◌, ◌^◌, Bool, true, false, List, [], ◌∷◌, ◌++◌, Option, none, some, if◌then◌else◌,
}
use bluzelle.Bytes.{Bytes, bytes}
use bluzelle.Bytes.Order.{bytes_ordered, number_ordered}
use bluzelle.Map.{Map, lookup, insert, erase, rebuild, inner}
use bluzelle.Protocol.{empty_header, Message, Request, Body, Response, Event}

abbrev pub Transactions : Type 0
Transactions = Map ℕ ℕ

abbrev pub Sessions : Type 0
Sessions = Map ℕ Transactions

abbrev pub Keys : Type 0
Keys = Map Bytes Sessions

pub record Subscriptions : Type 0 where
  pub subscribers : Map Bytes Keys
  pub key_seq_number : Map Bytes (Map Bytes ℕ)

abbrev pub empty : Subscriptions
empty = record { subscribers = []; key_seq_number = [] }

abbrev pub msg_invalid_uuid : Bytes
msg_invalid_uuid = bytes "INVALID_UUID"

abbrev pub msg_invalid_key : Bytes
msg_invalid_key = bytes "INVALID_KEY"

abbrev pub msg_invalid_sub : Bytes
msg_invalid_sub = bytes "INVALID_SUB"

abbrev pub msg_duplicate_sub : Bytes
msg_duplicate_sub = bytes "DUPLICATE_SUB"

-- `map[key][session][transaction] = session` below one database.
unfoldable pub add_key : Keys → Bytes → ℕ → ℕ → Keys
add_key ks key session transaction =
    let sessions = inner (lookup key ks) in
    let transactions = inner (lookup session sessions) in
    insert key (insert session (insert transaction session transactions) sessions) ks

unfoldable pub add_subscriber : Subscriptions → Bytes → Bytes → ℕ → ℕ → Subscriptions
add_subscriber m uuid key session transaction = record m {
  subscribers =
      insert uuid (add_key (inner (lookup uuid m.subscribers)) key session transaction)
        m.subscribers;
}

-- `key_seq_number[uuid][key] = n`
unfoldable pub set_seq : Subscriptions → Bytes → Bytes → ℕ → Subscriptions
set_seq m uuid key n = record m {
  key_seq_number =
      insert uuid (insert key n (inner (lookup uuid m.key_seq_number))) m.key_seq_number;
}

abbrev number_or_zero : Option ℕ → ℕ
number_or_zero none = 0
number_or_zero (some n) = n

-- `key_seq_number[uuid][key]`
unfoldable pub get_seq : Subscriptions → Bytes → Bytes → ℕ
get_seq m uuid key = number_or_zero (lookup key (inner (lookup uuid m.key_seq_number)))

-- The response that comes in is empty; it gets an error message or stays as it is.
unfoldable pub subscribe : Subscriptions → Bytes → Bytes → ℕ → ℕ → Subscriptions × Body
subscribe m uuid key transaction session =
    let added = add_subscriber m uuid key session transaction in
    elim (lookup uuid m.subscribers) [
      | none ↦ (added, Body.unset)
      | some ks ↦ elim (lookup key ks) [
        | none ↦ (set_seq added uuid key 0, Body.unset)
        | some sessions ↦ elim (lookup session sessions) [
          | none ↦ (added, Body.unset)
          | some transactions ↦ elim (lookup transaction transactions) [
            | none ↦ (added, Body.unset)
            | some _ ↦ (m, Body.error msg_duplicate_sub)
          ]
        ]
      ]
    ]

unfoldable pub unsubscribe : Subscriptions → Bytes → Bytes → ℕ → ℕ → Subscriptions × Body
unsubscribe m uuid key transaction session = elim (lookup uuid m.subscribers) [
  | none ↦ (m, Body.error msg_invalid_uuid)
  | some ks ↦ elim (lookup key ks) [
    | none ↦ (m, Body.error msg_invalid_key)
    | some sessions ↦ elim (lookup session sessions) [
      | none ↦ (m, Body.error msg_invalid_sub)
      | some transactions ↦ elim (lookup transaction transactions) [
        | none ↦ (m, Body.error msg_invalid_sub)
        | some _ ↦
            let sessions' = insert session (erase transaction transactions) sessions in
            (
              record m { subscribers = insert uuid (insert key sessions' ks) m.subscribers },
              Body.unset,
            )
      ]
    ]
  ]
]

-- The notification of one subscription.
unfoldable pub notice : Bytes → Bytes → Bytes → Bool → ℕ → ℕ → Response
notice uuid key value is_update seq transaction = record {
  header = record empty_header { db_uuid = uuid; nonce = transaction };
  body = Body.subscription_update key value is_update seq;
}

-- Each loop of `purge_closed_sessions` keeps an entry, or erases it if nothing is left of it.
abbrev pub nonempty : {K V : Type 0} → Map K V → Option (Map K V)
nonempty [] = none
nonempty (e ∷ m) = some (e ∷ m)

module _ (alive : ℕ → Bool) where
  unfoldable pub notify_transactions : (ℕ → Response) → Transactions → List Event
  notify_transactions make [] = []
  notify_transactions make ((transaction, session) ∷ rest) =
      let more = notify_transactions make rest in
      if alive session then Event.notification session (make transaction) ∷ more else more

  unfoldable pub notify_all : (ℕ → Response) → Sessions → List Event
  notify_all make [] = []
  notify_all make ((session, transactions) ∷ rest) =
      notify_transactions make transactions ++ notify_all make rest

  -- The sequence number is counted up once, before the first session of the key.
  unfoldable pub notify_sessions :
      Subscriptions → Bytes → Bool → Bytes → Bytes → Subscriptions × List Event
  notify_sessions m uuid is_update key value = elim (lookup uuid m.subscribers) [
    | none ↦ (m, [])
    | some ks ↦ elim (lookup key ks) [
      | none ↦ (m, [])
      | some [] ↦ (m, [])
      | some (first ∷ others) ↦
          let seq = (get_seq m uuid key + 1) % 2 ^ 64 in
          (
            set_seq m uuid key seq,
            notify_all (notice uuid key value is_update seq) (first ∷ others),
          )
    ]
  ]

  unfoldable pub inspect_commit : Subscriptions → Request → Subscriptions × List Event
  inspect_commit m request = elim request.msg [
    | Message.create key value expire ↦ notify_sessions m request.header.db_uuid true key value
    | Message.update key value expire ↦ notify_sessions m request.header.db_uuid true key value
    | Message.delete key ↦ notify_sessions m request.header.db_uuid false key []
    | _ ↦ (m, [])
  ]

  unfoldable pub purge_transactions : Transactions → Option Transactions
  purge_transactions m =
      nonempty (rebuild (λ session. if alive session then some session else none) m)

  unfoldable pub purge_sessions : Sessions → Option Sessions
  purge_sessions m = nonempty (rebuild purge_transactions m)

  unfoldable pub purge_keys : Keys → Option Keys
  purge_keys m = nonempty (rebuild purge_sessions m)

  unfoldable pub purge_closed_sessions : Subscriptions → Subscriptions
  purge_closed_sessions m = record m { subscribers = rebuild purge_keys m.subscribers }
