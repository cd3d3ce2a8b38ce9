-- ===== src/Server/Handles.antt =====
-- src/libs/server/ProxyServer.ts: the list of live socket handles.
pub mod Lifetime
use node_proxybroker.Prelude.{
  ℕ, suc, ◌+◌, Bool, true, false, not, Option, none, some, List, [], ◌∷◌, ◌++◌, Str, find, filter,
  if◌then◌else◌, ◌==◌,
}
use node_proxybroker.Server.Socket.{SocketHandle, new_handle, finish}

-- `inc` is the class counter of `SocketHandle`; `emptied` counts the 'empty handles' events.
pub record Server : Type 0 where
  pub handles : List SocketHandle
  pub inc : ℕ
  pub emptied : ℕ

-- `createSocketHandle`, with its default timeout.
unfoldable pub create_socket_handle : Server → ℕ → Bool → Option ℕ → Option Str → Server
create_socket_handle v now ssl timeout url =
    let t = elim timeout as (λ _. ℕ) [ none ↦ 10000 | some t ↦ t ] in
    record v { handles = v.handles ++ (new_handle v.inc now ssl t url ∷ []); inc = v.inc + 1 }

unfoldable pub remove_handle : Server → ℕ → Server
remove_handle v id =
    let left = filter (λ h. not (h.id == id)) v.handles in
    record v { handles = left; emptied = elim left [ [] ↦ v.emptied + 1 | _ ∷ _ ↦ v.emptied ] }

-- `getSocketHandle`, by the id that the constructor wrote on the socket.
unfoldable pub get_handle : Server → ℕ → Option SocketHandle
get_handle v id = find (λ h. h.id == id) v.handles

-- The timer of `preFinalize`: each handle is taken off the list and finished.
unfoldable pub finish_all : ℕ → List SocketHandle → List SocketHandle
finish_all now [] = []
finish_all now (h ∷ hs) = (finish now h).0 ∷ finish_all now hs

-- The finished handles, and the server with none left; with no handle it resolves at once.
unfoldable pub pre_finalize : ℕ → Server → List SocketHandle × Server
unfolding finish_all
pre_finalize now v = elim v.handles [
  | [] ↦ ([], v)
  | h ∷ hs ↦ (finish_all now (h ∷ hs), record v { handles = []; emptied = v.emptied + 1 })
]
