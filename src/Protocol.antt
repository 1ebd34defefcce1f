-- ===== src/Protocol.antt =====
-- The messages of proto/database.proto that crud and its parts exchange, after decoding. A field
-- that a message lacks reads as its default, so an accessor of another kind of message gives the
-- empty one, as protobuf's accessors do.
use bluzelle.Base.{ℕ, Bool, List, []}
use bluzelle.Bytes.{Bytes}

pub record Header : Type 0 where
  pub db_uuid : Bytes
  pub nonce : ℕ
  pub point_of_contact : Bytes
  pub request_hash : Bytes

abbrev pub empty_header : Header
empty_header = record { db_uuid = []; nonce = 0; point_of_contact = []; request_hash = [] }

-- The `oneof` of database_msg. `create_db` and `update_db` carry a size and an eviction policy.
pub data Message : Type 0 where
  create update : Bytes → Bytes → ℕ → Message
  read quick_read delete has ttl persist subscribe : Bytes → Message
  unsubscribe expire : Bytes → ℕ → Message
  keys size delete_db has_db writers nullmsg : Message
  create_db update_db : ℕ → ℕ → Message
  add_writers remove_writers : List Bytes → Message

pub record Request : Type 0 where
  pub header : Header
  pub msg : Message

-- database_create and database_update
pub record KeyValue : Type 0 where
  pub key : Bytes
  pub value : Bytes
  pub expire : ℕ

-- `request.create()`
abbrev pub create_of : Message → KeyValue
create_of (Message.create k v e) = record { key = k; value = v; expire = e }
create_of _ = record { key = []; value = []; expire = 0 }

-- `request.update()`
abbrev pub update_of : Message → KeyValue
update_of (Message.update k v e) = record { key = k; value = v; expire = e }
update_of _ = record { key = []; value = []; expire = 0 }

-- `request.has_update()`
abbrev pub has_update : Message → Bool
has_update (Message.update k v e) = Bool.true
has_update _ = Bool.false

-- The `oneof` of database_response.
pub data Body : Type 0 where
  unset : Body
  subscription_update : Bytes → Bytes → Bool → ℕ → Body
  read : Bytes → Bytes → Body
  quick_read : Bytes → Bytes → Bytes → Body
  has has_db : Bytes → Bool → Body
  keys : List Bytes → Body
  size : ℕ → ℕ → ℕ → ℕ → Body
  error : Bytes → Body
  writers : Bytes → List Bytes → Body
  ttl : Bytes → ℕ → Body

pub record Response : Type 0 where
  pub header : Header
  pub body : Body

-- What leaves the node: replies and notifications to sessions, replies to a point of contact, and
-- the delete requests that expiry hands to pbft.
pub data Event : Type 0 where
  signed_reply plain_reply notification : ℕ → Response → Event
  to_point_of_contact : Bytes → Response → Event
  delete_request : Bytes → Bytes → Event
