-- ===== src/Message.antt =====
-- message.go, with the types that its messages carry: `Network` of server.go and `Metadata` of
-- store.go.
pub mod Gob
use peer_store.Prelude.{ℕ, Bool, false, List, [], Bytes}

pub record Network : Type 0 where
  pub enc_type : Bytes
  pub enc_key : Bytes
  pub nonce : Bytes
  pub nodes : List Bytes
  pub split : Bool

-- The zero value, which the variable `network` has when the program starts.
abbrev pub zero_network : Network
zero_network = record { enc_type = []; enc_key = []; nonce = []; nodes = []; split = false }

pub record Metadata : Type 0 where
  pub cid : Bytes
  pub file_id : Bytes
  pub file_name : Bytes
  pub part : ℕ
  pub total_parts : ℕ

abbrev pub zero_metadata : Metadata
zero_metadata = record { cid = []; file_id = []; file_name = []; part = 0; total_parts = 0 }

-- The payloads, each with its fields in the order of the source.
pub data Message : Type 0 where
  find_successor : Bytes → Bytes → Bytes → Message
  find_successor_response : Bytes → Bytes → Bytes → Message
  get_predecessor : Bytes → Message
  get_predecessor_response : Bytes → Bytes → Bool → Message
  notify : Bytes → Bytes → Message
  store_chord_file : Bytes → Bytes → Bytes → Bool → Message
  get_chord_file : Bytes → Bytes → Message
  delete_chord_file : Bytes → Bytes → Message
  get_file : Bytes → Message
  store_file : Bytes → Bytes → ℕ → ℕ → ℕ → Message
  delete_file : Bytes → Message
  add_file : Bytes → Bytes → Network → Message
