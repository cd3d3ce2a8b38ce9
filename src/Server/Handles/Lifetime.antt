-- ===== src/Server/Handles/Lifetime.antt =====
-- src/libs/server/ProxyServer.ts: the handles from their creation to their removal.
use node_proxybroker.Prelude.{
  ℕ, suc, ◌+◌, ◌<◌, ◌≡◌, ◌≢◌, ◌∙◌, ap, refl, Bool, true, not, Option, none, some, List, [], ◌∷◌,
  ◌++◌, Str, arith, if◌then◌else◌, ◌==◌, All, All-append, find, filter, is_some, length,
}
use node_proxybroker.Server.Socket.{SocketHandle, new_handle, finish}
use node_proxybroker.Server.Handles.{
  Server, create_socket_handle, remove_handle, get_handle, finish_all, pre_finalize,
}

-- The ids of the live handles were all given out before.
abbrev pub IsNumbered : Server → Type 0
IsNumbered v = All (λ (h : SocketHandle). h.id < v.inc) v.handles

All-lt :
    (n : ℕ) (l : List SocketHandle)
    → All (λ (h : SocketHandle). h.id < n) l
    → All (λ (h : SocketHandle). h.id < n + 1) l
All-lt n [] k = tt
All-lt n (h ∷ l) k = (omega (arith, k.0), All-lt n l k.1)

find-new :
    (n : ℕ) (x : SocketHandle) (l : List SocketHandle)
    → All (λ (h : SocketHandle). h.id < n) l
    → x.id ≡ n
    → find (λ h. h.id == n) (l ++ (x ∷ [])) ≡ some x
find-new n x [] k e = ground arith
find-new n x (h ∷ l) k e = ground (arith, k.0, find-new n x l k.1 e)

find-old :
    (i n : ℕ) (x : SocketHandle) (l : List SocketHandle)
    → x.id ≡ n
    → i ≢ n
    → find (λ h. h.id == i) (l ++ (x ∷ [])) ≡ find (λ h. h.id == i) l
find-old i n x [] k e = ground arith
find-old i n x (h ∷ l) k e = ground (arith, find-old i n x l k e)

-- A handle that is created is found by its id, no other handle is lost or changed by it, and the ids
-- stay those given out before.
pub create_socket_handle-get_handle :
    (v : Server) (now : ℕ) (ssl : Bool) (timeout : Option ℕ) (url : Option Str) (i : ℕ)
    → IsNumbered v
    → i ≢ v.inc
    → IsNumbered (create_socket_handle v now ssl timeout url)
      × (is_some (get_handle (create_socket_handle v now ssl timeout url) v.inc) ≡ true)
      × (get_handle (create_socket_handle v now ssl timeout url) i ≡ get_handle v i)
unfolding create_socket_handle get_handle new_handle
create_socket_handle-get_handle v now ssl timeout url i k ne =
    let t = elim timeout as (λ _. ℕ) [ none ↦ 10000 | some t ↦ t ] in
    let x = new_handle v.inc now ssl t url in
    (
      All-append (λ (h : SocketHandle). h.id < v.inc + 1) v.handles (x ∷ [])
          (All-lt v.inc v.handles k) (omega arith, tt),
      ap is_some (find-new v.inc x v.handles k refl),
      find-old i v.inc x v.handles refl ne,
    )

find-filter :
    (i j : ℕ) (l : List SocketHandle)
    → find (λ h. h.id == j) (filter (λ h. not (h.id == i)) l)
      ≡ (if i == j then none else find (λ h. h.id == j) l)
find-filter i j [] = ground arith
find-filter i j (h ∷ l) = ground (arith, find-filter i j l)

-- A handle that is removed is not found any more, every other is found as before.
pub remove_handle-get_handle :
    (v : Server) (i j : ℕ)
    → get_handle (remove_handle v i) j ≡ (if i == j then none else get_handle v j)
unfolding remove_handle get_handle
remove_handle-get_handle v i j = find-filter i j v.handles

finish_all-finished :
    (now : ℕ) (l : List SocketHandle)
    → All (λ (h : SocketHandle). h.finished ≡ true) (finish_all now l)
unfolding finish_all finish
finish_all-finished now [] = tt
finish_all-finished now (h ∷ l) = (ground arith, finish_all-finished now l)

finish_all-length : (now : ℕ) (l : List SocketHandle) → length (finish_all now l) ≡ length l
unfolding finish_all
finish_all-length now [] = refl
finish_all-length now (h ∷ l) = ap suc (finish_all-length now l)

pre_finalize-finish_all :
    (now : ℕ) (l : List SocketHandle) (i e : ℕ)
    → ((pre_finalize now (record { handles = l; inc = i; emptied = e })).0 ≡ finish_all now l)
      × ((pre_finalize now (record { handles = l; inc = i; emptied = e })).1.handles ≡ [])
unfolding pre_finalize finish_all
pre_finalize-finish_all now [] i e = (refl, refl)
pre_finalize-finish_all now (h ∷ l) i e = (refl, refl)

-- The end of a server leaves no handle in the list, and those that were in it are all finished.
pub pre_finalize-finished :
    (now : ℕ) (v : Server)
    → All (λ (h : SocketHandle). h.finished ≡ true) (pre_finalize now v).0
      × ((pre_finalize now v).1.handles ≡ [])
      × (length (pre_finalize now v).0 ≡ length v.handles)
pre_finalize-finished now v =
    let (same, empty) = pre_finalize-finish_all now v.handles v.inc v.emptied in
    (
      rw same (finish_all-finished now v.handles),
      empty,
      ap length same ∙ finish_all-length now v.handles,
    )
