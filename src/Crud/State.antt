-- ===== src/Crud/State.antt =====
-- The state of crud/crud.cpp, what a call may see of its surroundings, and the sending of
-- responses. A handler that throws leaves what it had changed.
use bluzelle.Base.{
  ◌≡◌, ℕ, Bool, true, false, not, ◌&&◌, List, [], ◌∷◌, ◌++◌, Option, none, some, if◌then◌else◌,
}
use bluzelle.Bytes.{Bytes, bytes, is_empty}
use bluzelle.Codec.{Codec}
use bluzelle.Storage.{
  MemStorage, StorageResult, ok, not_found, exists, ttl_not_found, not_saved, value_too_large,
  key_too_large, db_not_found, db_exists, db_full, access_denied, delete_pending, invalid_argument,
  invalid_size,
}
use bluzelle.Subscriptions.{Subscriptions}
use bluzelle.Policy.Random.{Draw}
use bluzelle.Protocol.{Message, Request, Body, Response, Event}

pub record Crud : Type 0 where
  pub storage : MemStorage
  pub subscriptions : Subscriptions
  pub owner_public_key : Bytes
  -- unlimited when zero
  pub max_swarm_storage : ℕ
  pub started : Bool
  -- whether a node was given to send through
  pub has_node : Bool
  -- what was sent, oldest first
  pub sent : List Event

-- The clock, in seconds, is read once in a call; `get_ttl` alone reads it twice. `peers` are the
-- identifiers of the current peers, which pbft knows.
pub record Context : Type 0 where
  pub codec : Codec
  pub now : ℕ
  pub now_again : ℕ
  pub peers : List Bytes
  pub alive : ℕ → Bool
  pub draw : Draw

-- The exceptions that the code throws or lets through.
pub data Failure : Type 0 where
  permissions_unreadable permissions_malformed expire_key_malformed : Failure
  ttl_not_updated permissions_not_updated bad_number : Failure

pub data Result (A : Type 0) : Type 0 where
  done : A → Result A
  thrown : Failure → Result A

infixl 5 ◌>>=◌
abbrev pub ◌>>=◌ : {A B : Type 0} → Result A → (A → Result B) → Result B
done a >>= f = f a
thrown e >>= f = thrown e

pub done-injective : {A : Type 0} {a b : A} → done a ≡ done b → a ≡ b
done-injective e = cc

-- A handler ends normally or by an exception, with the state that it leaves.
pub data Outcome : Type 0 where
  finished : Crud → Outcome
  failed : Failure → Crud → Outcome

abbrev pub after : Outcome → Crud
after (finished c) = c
after (failed e c) = c

-- Goes on with the value, or ends with the exception and the present state.
abbrev pub attempt : {A : Type 0} → Crud → Result A → (A → Outcome) → Outcome
attempt c (done a) f = f a
attempt c (thrown e) f = failed e c

-- A branch on whether a value was found.
abbrev pub choose : {A : Type 0} → Option A → Outcome → (A → Outcome) → Outcome
choose none missing f = missing
choose (some a) missing f = f a

unfoldable pub storage_result_msg : StorageResult → Bytes
storage_result_msg ok = bytes "OK"
storage_result_msg not_found = bytes "RECORD_NOT_FOUND"
storage_result_msg exists = bytes "RECORD_EXISTS"
storage_result_msg ttl_not_found = bytes "TTL_RECORD_NOT_FOUND"
storage_result_msg not_saved = bytes "NOT_SAVED"
storage_result_msg value_too_large = bytes "VALUE_SIZE_TOO_LARGE"
storage_result_msg key_too_large = bytes "KEY_SIZE_TOO_LARGE"
storage_result_msg db_not_found = bytes "DATABASE_NOT_FOUND"
storage_result_msg db_exists = bytes "DATABASE_EXISTS"
storage_result_msg db_full = bytes "INSUFFICIENT_SPACE"
storage_result_msg access_denied = bytes "ACCESS_DENIED"
storage_result_msg delete_pending = bytes "DELETE_PENDING"
storage_result_msg invalid_argument = bytes "INVALID_ARGUMENT"
storage_result_msg invalid_size = bytes "INVALID_SIZE_LIMITS_SET"

abbrev pub is_quick_read : Message → Bool
is_quick_read (Message.quick_read key) = true
is_quick_read _ = false

-- `mutable_quick_read()->set_error(text)`
abbrev quick_read_error : Body → Bytes → Body
quick_read_error (Body.quick_read k v e) text = Body.quick_read k v text
quick_read_error _ text = Body.quick_read [] [] text

unfoldable pub response_body : Message → StorageResult → Body → Body
response_body msg ok body = body
response_body (Message.quick_read key) r body = quick_read_error body (storage_result_msg r)
response_body msg r body = Body.error (storage_result_msg r)

-- The sends of one response: through the session, then through the point of contact.
unfoldable pub replies : Bool → Request → Option ℕ → Response → List Event
replies has_node request session response =
    elim session [
      | none ↦ []
      | some id ↦
          (if is_quick_read request.msg
            then Event.plain_reply id response
            else Event.signed_reply id response)
          ∷ []
    ]
    ++ (if has_node && not (is_empty request.header.point_of_contact)
        then Event.to_point_of_contact request.header.point_of_contact response ∷ []
        else [])

unfoldable pub send_response : Crud → Request → StorageResult → Body → Option ℕ → Crud
send_response c request result body session =
    let response : Response = record {
      header = request.header;
      body = response_body request.msg result body;
    } in
    record c { sent = c.sent ++ replies c.has_node request session response }

-- Sends the response and ends.
abbrev pub respond : Crud → Request → StorageResult → Body → Option ℕ → Outcome
respond c request result body session = finished (send_response c request result body session)
