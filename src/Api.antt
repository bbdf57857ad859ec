-- ===== src/Api.antt =====
-- The HTTP handlers of server.go. A request is what net/http has parsed; the texts of the errors are
-- left out.
pub mod RoundTrip
pub mod Lost
pub mod Routes
use peer_store.Prelude.{
  ℕ, Bool, not, ◌&&◌, ◌||◌, Option, none, some, List, [], ◌∷◌, ◌++◌, ◌==◌, length, if◌then◌else◌,
  Bytes, text, bytes_eq,
}
use peer_store.Result.{Exec, Result, ok, err}
use peer_store.Message.{Network}
use peer_store.Host.{Host}
use peer_store.Chord.{NodeRef, ChordNode}
use peer_store.Disk.{slash}
use peer_store.Server.{Server}
use peer_store.Mesh.Ops.{store, remove}
use peer_store.Mesh.Ops.Get.{get}
use peer_store.Node.{World}
use peer_store.Node.Files.{store_chord, get_chord, delete_chord}

-- `form_parses` tells whether ParseMultipartForm succeeds, `file` is the form's file with its name,
-- `query_cid` and `form_cid` are what Get of the query and FormValue give for "cid".
pub record Request : Type 0 where
  pub method : Bytes
  pub form_parses : Bool
  pub file : Option (Bytes × Bytes)
  pub query_cid : Bytes
  pub form_cid : Bytes

pub data Reply : Type 0 where
  failure : ℕ → Reply
  stored : Bytes → Bytes → Reply
  attachment : Bytes → Bytes → Reply
  deleted : Bytes → Reply

-- filepath.Base
unfoldable pub drop_slashes : Bytes → Bytes
drop_slashes [] = []
drop_slashes (c ∷ cs) =
    let rest = drop_slashes cs in if length rest == 0 && c == slash then [] else c ∷ rest

unfoldable pub last_element : Bytes → Bytes → Bytes
last_element done [] = done
last_element done (c ∷ cs) = last_element (if c == slash then [] else done ++ c ∷ []) cs

unfoldable pub base : Bytes → Bytes
base path =
    if length path == 0
    then text "."
    else if length (drop_slashes path) == 0
    then text "/"
    else last_element [] (drop_slashes path)

abbrev pub reply_with : {A : Type 0} → (A → Reply) → Exec Server A → Exec Server Reply
reply_with f m s = let (r, s') = m s in (ok (elim r [ ok a ↦ f a | err _ ↦ failure 500 ]), s')

abbrev pub refuse : ℕ → Exec Server Reply
refuse status s = (ok (failure status), s)

abbrev pub requested_cid : Request → Bytes
requested_cid r = if bytes_eq r.method (text "DELETE") then r.query_cid else r.form_cid

module _ (h : Host) (w : World) (fuel : ℕ) (architecture : Bytes) where
  unfoldable pub handle_api_store : Request → Exec Server Reply
  handle_api_store r =
      if not (bytes_eq r.method (text "POST"))
      then refuse 405
      else if not r.form_parses
      then refuse 400
      else elim r.file [
        | none ↦ refuse 400
        | some (filename, file) ↦
            reply_with (λ cid. stored cid filename)
              (if bytes_eq architecture (text "chord")
                then store_chord h w fuel filename file
                else store h filename file)
      ]

  unfoldable pub handle_api_retrieve : Request → Exec Server Reply
  handle_api_retrieve r =
      if not (bytes_eq r.method (text "GET"))
      then refuse 405
      else if length r.query_cid == 0
      then refuse 400
      else reply_with (λ found. attachment (base found.1) found.0)
          (if bytes_eq architecture (text "chord")
            then get_chord h w fuel r.query_cid
            else get h r.query_cid)

  unfoldable pub handle_api_delete : Request → Exec Server Reply
  handle_api_delete r =
      if not (bytes_eq r.method (text "DELETE")) && not (bytes_eq r.method (text "POST"))
      then refuse 405
      else if length (requested_cid r) == 0
      then refuse 400
      else reply_with (λ _. deleted (requested_cid r))
          (if bytes_eq architecture (text "chord")
            then delete_chord h w fuel (requested_cid r)
            else remove h (requested_cid r))

-- What handleAPIStatus reports. On a ring it reads the node without asking whether it is there.
pub record Common : Type 0 where
  pub split : Bool
  pub encryption : Bytes

pub data Status : Type 0 where
  chord_status : Bytes → ℕ → Bytes → Bytes → ℕ → Common → Status
  mesh_status : Bytes → ℕ → Network → Common → Status
  status_failure : ℕ → Status
  status_panic : Status

abbrev pub address_or : Bytes → Option NodeRef → Bytes
address_or other none = other
address_or other (some r) = r.address

abbrev pub node_status : Common → Option ChordNode → Status
node_status c none = status_panic
node_status c (some n) = elim n.successor [
  | none ↦ status_panic
  | some succ ↦
      chord_status n.address n.id succ.address (address_or (text "nil") n.predecessor)
        (length n.responsibles) c
]

unfoldable pub handle_api_status : Bytes → Bytes → Server → Status
handle_api_status architecture method s =
    let c : Common = record { split = s.network.split; encryption = s.network.enc_type } in
    if not (bytes_eq method (text "GET"))
    then status_failure 405
    else if bytes_eq architecture (text "chord")
    then node_status c s.chord
    else mesh_status s.addr (length s.peers) s.network c
