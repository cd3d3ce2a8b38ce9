-- ===== src/Server/Handlers.antt =====
-- src/libs/server/ProxyServer.ts: what the server does with a request before it opens a connection,
-- and after that connection has finished.
use node_proxybroker.Prelude.{
  ◌+◌, Bool, true, false, not, ◌&&◌, Option, none, some, [], ◌++◌, Str, codes, str_eq, is_empty,
  find, is_some, if◌then◌else◌, ◌==◌, ltb, leb, show_nat,
}
use node_proxybroker.Http.{Error}
use node_proxybroker.Server.Socket.{
  SocketHandle, remove_header, set_header, has_error, has_socket_error,
}
use node_proxybroker.Server.Target.{
  Request, Target, Options, get_header, select_proxy, no_target, fixed, chooser,
}

abbrev pub via_text : Request → Str
via_text r = codes "ProxyBroker on " ++ (r.local_address ++ (codes ":" ++ show_nat r.local_port))

abbrev pub without_select : SocketHandle → SocketHandle
without_select s =
    let a = remove_header s (codes "Proxy-Select-Level") in
    let b = remove_header a (codes "Proxy-Select-Speed-Limit") in
    let c = remove_header b (codes "Proxy-Select-SSL") in
    let d = remove_header c (codes "Proxy-Select-Fallback") in
    let e = remove_header d (codes "Proxy-Select-Country") in
    remove_header e (codes "Proxy-Select-Proxy")

-- `onProxyRequest`: what goes on with the request, by the level of the server.
unfoldable pub on_proxy_request : Options → Request → SocketHandle → SocketHandle
unfolding set_header remove_header
on_proxy_request o r s =
    let t = without_select s in
    if o.level == 3
    then set_header (set_header t (codes "X-Forwarded-For") r.remote_address) (codes "Via")
        (via_text r)
    else if o.level == 2
    then set_header t (codes "Via") (via_text r)
    else t

-- `hasFallbackHeader`
unfoldable pub has_fallback_header : SocketHandle → Bool
has_fallback_header s =
    elim (find (λ h. str_eq h.key (codes "proxy-select-fallback")) s.headers_list) [
      | none ↦ false
      | some h ↦ not (is_empty h.value)
    ]

-- `hasSelectedProxy`
unfoldable pub has_selected_proxy : Request → Bool
has_selected_proxy r = is_some (get_header select_proxy r.headers)

pub data Reply : Type 0 where
  -- 504 Gateway Time-out, written to the tunnel or as a response.
  error_upstream : Error → Reply
  error_response : Error → Reply
  -- The other side is done: the tunnel is ended, the response destroyed.
  ended : Reply
  -- An exception escaped or was only logged: nothing is sent.
  unanswered : Reply

-- What is done next for a request: a connection to open (the flag says that it is a tunnel), or
-- nothing more.
pub data Next : Type 0 where
  extern : Bool → SocketHandle → Next
  direct : Bool → SocketHandle → Next
  done : Reply → Next

abbrev pub bump : SocketHandle → SocketHandle
bump s = record s { repeat = s.repeat + 1 }

-- `getSocketHandle`: a handle leaves the list of the server when it has finished.
unfoldable pub get_socket_handle : SocketHandle → Option SocketHandle
get_socket_handle s = if s.finished then none else some s

abbrev pub has_target : Target → Bool
has_target no_target = false
has_target (fixed t) = not (is_empty t)
has_target chooser = true

abbrev pub over_proxy : Options → Bool → Bool
over_proxy o disable = o.to_proxy && (has_target o.target && not disable)

-- `onServerConnect`, up to the connection that it opens.
unfoldable pub on_server_connect : Options → Request → Bool → SocketHandle → Next
unfolding get_socket_handle on_proxy_request
on_server_connect o r disable s = elim (get_socket_handle s) [
  | none ↦ done unanswered
  | some h ↦
      let t = on_proxy_request o r h in
      if over_proxy o disable then extern true t else direct true t
]

abbrev pub no_connection : Error
no_connection = record { message = codes "Can't establish connection."; code = [] }

-- `root`, up to the connection that it opens.
unfoldable pub root : Options → Request → Bool → SocketHandle → Next
unfolding get_socket_handle on_proxy_request
root o r disable s = elim (get_socket_handle s) [
  | none ↦ done (error_response no_connection)
  | some h ↦
      let t = on_proxy_request o r h in
      if over_proxy o disable then extern false t else direct false t
]

abbrev pub check_repeats : Options → Request → Bool
check_repeats o r = o.to_proxy && not (has_selected_proxy r)

abbrev pub reply_error : (Error → Reply) → Option Error → Reply
reply_error f none = unanswered
reply_error f (some e) = f e

-- `handleUpstreamAfterFinishedRequest`
unfoldable pub handle_upstream_after_finished_request :
    Options → Request → SocketHandle → SocketHandle → Next
unfolding has_error has_socket_error has_selected_proxy has_fallback_header on_server_connect
handle_upstream_after_finished_request o r rh h =
    if has_error h && has_socket_error h
    then (if ltb rh.repeat o.repeat_limit && check_repeats o r
        then extern true (bump rh)
        else if leb o.repeat_limit rh.repeat && (check_repeats o r && has_fallback_header rh)
        then on_server_connect o r true rh
        else done (reply_error error_upstream h.error))
    else done ended

-- `handleResponseAfterFinishedRequest`
unfoldable pub handle_response_after_finished_request :
    Options → Request → SocketHandle → SocketHandle → Next
unfolding has_error has_selected_proxy has_fallback_header root
handle_response_after_finished_request o r rh h =
    if has_error h
    then (if ltb rh.repeat o.repeat_limit && check_repeats o r
        then extern false (bump rh)
        else if leb o.repeat_limit rh.repeat && (check_repeats o r && has_fallback_header rh)
        then root o r true rh
        else done (reply_error error_response h.error))
    else done ended

unfoldable pub after_finished : Bool → Options → Request → SocketHandle → SocketHandle → Next
unfolding handle_upstream_after_finished_request handle_response_after_finished_request
after_finished true = handle_upstream_after_finished_request
after_finished false = handle_response_after_finished_request
