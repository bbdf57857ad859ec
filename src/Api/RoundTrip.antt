-- ===== src/Api/RoundTrip.antt =====
-- A file that is posted on a node of the mesh is returned by it.
use peer_store.Prelude.{
  ℕ, ◌+◌, ◌≡◌, refl, true, false, some, none, arith, length, Bytes, text, bytes_eq, ◌==◌,
}
use peer_store.Result.{ok}
use peer_store.Host.{Host, HostLaws, AreBytes}
use peer_store.Crypto.RoundTrip.{IsKeyed}
use peer_store.Store.Address.{length-hex_encode}
use peer_store.Store.Written.{IsPlain, IsFree}
use peer_store.Server.{Server}
use peer_store.Server.Broadcast.{AreUp}
use peer_store.Mesh.Ops.{generate_cid, store}
use peer_store.Mesh.Ops.Get.{get}
use peer_store.Mesh.Ops.Stored.{get-store}
use peer_store.Node.{World}
use peer_store.Api.{Request, stored, attachment, base, handle_api_store, handle_api_retrieve}

abbrev pub post : Bytes → Bytes → Request
post name content = record {
  method = text "POST";
  form_parses = true;
  file = some (name, content);
  query_cid = text "";
  form_cid = text "";
}

abbrev pub get_request : Bytes → Request
get_request cid = record {
  method = text "GET";
  form_parses = true;
  file = none;
  query_cid = cid;
  form_cid = text "";
}

pub cid_not_empty :
    (h : Host) (laws : HostLaws h) (content : Bytes)
    → (length (generate_cid h content) == 0) ≡ false
unfolding generate_cid
cid_not_empty h laws content =
    ground (arith, length-hex_encode (h.sha1 content), laws.length-sha1 content)

module _ (h : Host) (w : World) (fuel : ℕ) (architecture : Bytes)
    (mesh : bytes_eq architecture (text "chord") ≡ false) where
  store_reply :
      (name content cid : Bytes) (s s' : Server)
      → store h name content s ≡ (ok cid, s')
      → handle_api_store h w fuel architecture (post name content) s ≡ (ok (stored cid name), s')
  unfolding handle_api_store bytes_eq
  store_reply name content cid s s' ran = rw (mesh, ran) refl

  retrieve_reply :
      (name content cid : Bytes) (s s' : Server)
      → (length cid == 0) ≡ false
      → get h cid s ≡ (ok (content, name), s')
      → handle_api_retrieve h w fuel architecture (get_request cid) s
        ≡ (ok (attachment (base name) content), s')
  unfolding handle_api_retrieve bytes_eq
  retrieve_reply name content cid s s' some_cid ran = rw (some_cid, mesh, ran) refl

-- On a node of an architecture other than "chord", on a host that keeps its laws, where the network
-- does not split, its key fits, every connection can be written to, the disk has room under a plain
-- name for the file's content identifier, and there are three initialisation vectors: an upload of a
-- file of bytes is answered with its content identifier, and a download of that identifier from the
-- same node with the content and the base of the file's name.
pub retrieve-store :
    (h : Host) (laws : HostLaws h) (w : World) (fuel : ℕ) (architecture : Bytes) (s : Server)
    (name content v v' v'' : Bytes)
    → bytes_eq architecture (text "chord") ≡ false
    → s.network.split ≡ false
    → IsKeyed s.network
    → AreUp s.peers
    → IsPlain (s.store.transform (generate_cid h content))
    → IsFree s.store (generate_cid h content) s.disk
    → AreBytes content
    → h.random s.disk.draws 16 ≡ some v
    → h.random (s.disk.draws + 1) 16 ≡ some v'
    → h.random (s.disk.draws + 2) 16 ≡ some v''
    → let cid = generate_cid h content in
      (s' : Server) × (handle_api_store h w fuel architecture (post name content) s
        ≡ (ok (stored cid name), s'))
      × (handle_api_retrieve h w fuel architecture (get_request cid) s'
          ≡ (ok (attachment (base name) content), s'))
retrieve-store h laws w fuel architecture s name content v v' v'' mesh whole keyed ups plain free
      bytes r r' r'' =
    let (s', kept, found) =
      get-store h laws s name content v v' v'' whole keyed ups plain free bytes r r' r'' in
    (
      s',
      store_reply h w fuel architecture mesh name content (generate_cid h content) s s' kept,
      retrieve_reply h w fuel architecture mesh name content (generate_cid h content) s' s'
          (cid_not_empty h laws content) found,
    )
