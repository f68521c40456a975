-- ===== src/Core/Message.antt =====
-- internal/core/message.go: blobs, deliveries and events.
use phenk.Prelude.{ℕ, Bool, Option, List, Bytes}

pub record Blob : Type 0 where
  pub id : ℕ
  pub sha256 : Bytes
  pub size_bytes : ℕ
  pub path : Bytes
  pub refcount : ℕ
  pub created_at : ℕ

pub data DeliveryState : Type 0 where
  received parsed failed : DeliveryState

pub data AuthResult : Type 0 where
  auth_none auth_pass auth_fail auth_soft_fail : AuthResult
  auth_neutral auth_temp_error auth_perm_error : AuthResult

-- The authentication results are `none` until the message is parsed.
pub record Delivery : Type 0 where
  pub id : ℕ
  pub identity_id : ℕ
  pub seq : ℕ
  pub blob_id : ℕ
  pub envelope_from : Bytes
  pub client_ip : ℕ
  pub helo : Bytes
  pub tls : Bool
  pub size_bytes : ℕ
  pub spf : Option AuthResult
  pub dkim : Option AuthResult
  pub dmarc : Option AuthResult
  pub state : DeliveryState
  pub received_at : ℕ
  pub parsed_at : Option ℕ
  pub wrapped_content_key : Bytes

-- ParsedMessage, with the bodies as they are stored
pub record ParsedMessage : Type 0 where
  pub delivery_id : ℕ
  pub subject : Bytes
  pub from_name : Bytes
  pub from_addr : Bytes
  pub to_addrs : List Bytes
  pub sent_at : Option ℕ
  pub text_body : Bytes
  pub html_body : Bytes
  pub preview : Bytes

pub record Attachment : Type 0 where
  pub id : ℕ
  pub delivery_id : ℕ
  pub filename : Bytes
  pub content_type : Bytes
  pub size_bytes : ℕ
  pub blob_id : Option ℕ

pub data EventType : Type 0 where
  identity_created identity_expiring identity_expired identity_purged : EventType
  message_received message_parsed message_expired : EventType

-- The payload of an event is derived from the rows it is about, and is left out.
pub record Event : Type 0 where
  pub seq : ℕ
  pub identity_id : Option ℕ
  pub type : EventType
