-- ===== src/Start/Run.antt =====
-- Start of server.go, loop and Stop of mesh_util.go, main of main.go: a server from its start to its end.
use peer_store.Prelude.{
  ℕ, ◌≡◌, refl, Bool, true, false, Option, none, some, Option-cases, inl, inr, List, [], ◌∷◌, ◌++◌,
  if◌then◌else◌, Bytes,
}
use peer_store.Result.{Exec, Result, ok, err, ◌>>=◌, ◌>>◌, pure, raise, io_failed, channel_closed}
use peer_store.Message.{Network}
use peer_store.Host.{Host}
use peer_store.Config.{Config, parse_config}
use peer_store.Disk.{Disk}
use peer_store.Server.{Server}
use peer_store.Node.{World}
use peer_store.Dispatch.{on_rpc, loop}
use peer_store.Api.{Request}
use peer_store.Api.Routes.{Answer, serve_api}
use peer_store.Start.{start_server}

-- What comes to a running server, in the order in which it is handled: an RPC that the select of
-- loop takes from the channel, the end of quitch, and a request to the API server, which runs beside
-- the loop.
pub data Input : Type 0 where
  rpc : Bytes → Bytes → Input
  quit : Input
  request : Bytes → Request → Input

module _ (h : Host) (w : World) (fuel : ℕ) where
  -- Without a Config there is no API server, and nobody answers.
  unfoldable pub api_server : Option Config → Bytes → Request → Exec Server (Option Answer)
  api_server none path r = pure none
  api_server (some c) path r = do
    answer ← serve_api h w fuel c.architecture path r
    pure (some answer)

  -- The Boolean tells whether the loop is still running; after its end an RPC stays on the channel.
  unfoldable pub run : Option Config → Bool → List Input → Exec Server (List (Option Answer))
  run c looping [] = pure []
  run c true (rpc from payload ∷ events) = do on_rpc h w fuel from payload; run c true events
  run c false (rpc from payload ∷ events) = run c false events
  run c looping (quit ∷ events) = run c false events
  run c looping (request path r ∷ events) = do
    answer ← api_server c path r
    answers ← run c looping events
    pure (answer ∷ answers)

  -- `listens` tells whether ListenAndAccept succeeds.
  unfoldable pub start : Bool → Option Config → List Input → Exec Server (List (Option Answer))
  start listens c events = if listens then run c true events else raise io_failed

-- quitch, which is nil, open or closed. The program's one `close` of it is Stop.
pub data Quitch : Type 0 where
  nil running closed : Quitch

unfoldable pub stop : Exec Quitch Unit
stop nil = (ok tt, nil)
stop running = (ok tt, closed)
stop closed = (err channel_closed, closed)

abbrev pub started_with :
    Host
    → World
    → Bytes
    → Bytes
    → Network
    → Disk
    → Result (Config × Bool)
    → Result (Result {0} Unit × Server)
started_with h w key nonce network disk (err e) = err e
started_with h w key nonce network disk (ok (c, warned)) =
    ok (start_server h w key nonce c network disk)

-- main, where an error is the end of the program.
unfoldable pub main :
    Host → World → Bytes → Bytes → Config → Network → Disk → Result (Result {0} Unit × Server)
main h w key nonce flags network disk = started_with h w key nonce network disk (parse_config flags)

abbrev pub rpcs_of : List (Bytes × Bytes) → List Input
rpcs_of [] = []
rpcs_of ((from, payload) ∷ rpcs) = rpc from payload ∷ rpcs_of rpcs

module _ (h : Host) (w : World) (fuel : ℕ) where
  on_rpc_ok :
      (from payload : Bytes) (s : Server)
      → on_rpc h w fuel from payload s ≡ (ok tt, (on_rpc h w fuel from payload s).1)
  unfolding on_rpc
  on_rpc_ok from payload s = elim (Option-cases (h.decode_message payload)) [
    | inl e ↦ rw (on_rpc, e) refl
    | inr (msg, e) ↦ rw (on_rpc, e) refl
  ]

  idle :
      (c : Option Config) (rpcs : List (Bytes × Bytes)) (s : Server)
      → run h w fuel c false (rpcs_of rpcs) s ≡ (ok [], s)
  unfolding run
  idle c [] s = refl
  idle c ((from, payload) ∷ rpcs) s = idle c rpcs s

  -- A server that is told to quit has handled the RPCs that it took before, as its loop does, and
  -- handles none that come later.
  pub quit_ends_loop :
      (c : Option Config) (rpcs later : List (Bytes × Bytes)) (s : Server)
      → run h w fuel c true (rpcs_of rpcs ++ quit ∷ rpcs_of later) s
        ≡ (ok [], (loop h w fuel rpcs s).1)
  unfolding run loop
  quit_ends_loop c [] later s = idle c later s
  quit_ends_loop c ((from, payload) ∷ rpcs) later s =
      rw (on_rpc_ok from payload s) (quit_ends_loop c rpcs later (on_rpc h w fuel from payload s).1)
