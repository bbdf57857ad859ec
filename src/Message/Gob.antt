-- ===== src/Message/Gob.antt =====
-- registerGobTypes of server.go: the payload types that gob is told of.
use peer_store.Prelude.{◌≡◌, refl, Bool, true, false, ◌||◌, List, [], ◌∷◌, Bytes, text, bytes_eq}
use peer_store.Message.{
  Message, find_successor, find_successor_response, get_predecessor, get_predecessor_response,
  notify, store_chord_file, get_chord_file, delete_chord_file, get_file, store_file, delete_file,
  add_file,
}

-- The type of a payload.
unfoldable pub type_name : Message → Bytes
type_name (find_successor id from_addr request_id) = text "MessageFindSuccessor"
type_name (find_successor_response node_id node_addr request_id) =
    text "MessageFindSuccessorResponse"
type_name (get_predecessor from_addr) = text "MessageGetPredecessor"
type_name (get_predecessor_response node_id node_addr has_pred) =
    text "MessageGetPredecessorResponse"
type_name (notify node_id node_addr) = text "MessageNotify"
type_name (store_chord_file cid key from_addr transfer) = text "MessageStoreChordFile"
type_name (get_chord_file cid from_addr) = text "MessageGetChordFile"
type_name (delete_chord_file cid from_addr) = text "MessageDeleteChordFile"
type_name (get_file cid) = text "MessageGetFile"
type_name (store_file cid key part total_parts size) = text "MessageStoreFile"
type_name (delete_file cid) = text "MessageDeleteFile"
type_name (add_file addr local_addr network) = text "MessageAddFile"

-- The types that registerGobTypes registers, in its order.
unfoldable pub register_gob_types : List Bytes
register_gob_types =
    text "MessageStoreFile"
    ∷ text "MessageGetFile"
    ∷ text "MessageDeleteFile"
    ∷ text "MessageAddFile"
    ∷ text "MessageFindSuccessor"
    ∷ text "MessageFindSuccessorResponse"
    ∷ text "MessageGetPredecessor"
    ∷ text "MessageGetPredecessorResponse"
    ∷ text "MessageNotify"
    ∷ text "MessageStoreChordFile"
    ∷ text "MessageGetChordFile"
    ∷ text "MessageDeleteChordFile"
    ∷ []

abbrev pub is_listed : Bytes → List Bytes → Bool
is_listed name [] = false
is_listed name (n ∷ ns) = bytes_eq name n || is_listed name ns

-- Every message that the program sends has a payload of a registered type.
pub every_type_registered : (msg : Message) → is_listed (type_name msg) register_gob_types ≡ true
unfolding type_name register_gob_types bytes_eq
every_type_registered (find_successor id from_addr request_id) = refl
every_type_registered (find_successor_response node_id node_addr request_id) = refl
every_type_registered (get_predecessor from_addr) = refl
every_type_registered (get_predecessor_response node_id node_addr has_pred) = refl
every_type_registered (notify node_id node_addr) = refl
every_type_registered (store_chord_file cid key from_addr transfer) = refl
every_type_registered (get_chord_file cid from_addr) = refl
every_type_registered (delete_chord_file cid from_addr) = refl
every_type_registered (get_file cid) = refl
every_type_registered (store_file cid key part total_parts size) = refl
every_type_registered (delete_file cid) = refl
every_type_registered (add_file addr local_addr network) = refl
