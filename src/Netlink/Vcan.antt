-- ===== src/Netlink/Vcan.antt =====
-- src/Daemon/VCAN.cpp
pub mod Balance
pub mod Effect
use hy_can.Base.{
  ℕ, suc, not, Option, none, some, Text, text, ◌++◌, ℤ, pos, negsuc, ◌==◌, is_negative,
  if◌then◌else◌,
}
use hy_can.Util.Error.{
  Error, ErrorCode, error, Expected, ok, unexpected, vcan_checking_error, vcan_creation_error,
  nl_socket_alloc_error, nl_connect_error, rtnl_link_alloc_error,
}
use hy_can.Netlink.Libnl.{
  count_at, count_at, Libnl, Env, M, pure, ◌>>=◌, ◌>>◌, call, take_link, link_put,
}

-- `ENODEV`
abbrev pub enodev : ℕ
enodev = 19

-- `-result` of a negative result.
abbrev pub negate : ℤ → ℤ
negate (pos n) = pos n
negate (negsuc n) = pos (suc n)

module _ (L : Libnl) where
  abbrev pub count_socket : Option L.Sock → Env L → Env L
  count_socket none e = e
  count_socket (some s) e = record e { sockets_taken = count_at (L.sock_address s) e.sockets_taken }

  -- `nl_socket_alloc`
  abbrev pub socket_alloc : M L (Option L.Sock)
  socket_alloc e = let s = L.socket_alloc e.world in (s, count_socket s e)

  -- `nl_socket_free(sock)`; `nl_close` is a part of it.
  abbrev pub socket_free : L.Sock → M L (Unit {0})
  socket_free sock e =
      (tt, record e { sockets_freed = count_at (L.sock_address sock) e.sockets_freed })

  fail : ErrorCode → Text → M L (Expected (Unit {0}))
  fail c m = pure (unexpected (error c m))

  -- The part with the link object at hand.
  add_vcan : Text → L.Sock → L.Link → M L (Expected (Unit {0}))
  unfolding fail
  add_vcan interface_name sock link = do
    let named = L.set_name link interface_name
    let typed = (L.set_type named (text "vcan")).1
    result ← call (L.link_add sock typed)
    link_put link
    socket_free sock
    if is_negative result
        then fail vcan_creation_error (
            text "Failed to create VCAN interface '"
            ++ (interface_name ++ (text "': " ++ L.strerror (negate result))))
        else pure (ok tt)

  add_with_link : Text → L.Sock → Option L.Link → M L (Expected (Unit {0}))
  unfolding fail add_vcan
  add_with_link interface_name sock none = do
    socket_free sock
    fail rtnl_link_alloc_error (text "Error: Cannot alloc rtnl_link.")
  add_with_link interface_name sock (some link) = add_vcan interface_name sock link

  add_with_socket : Text → Option L.Sock → M L (Expected (Unit {0}))
  unfolding fail add_with_link
  add_with_socket interface_name none =
      fail nl_socket_alloc_error (text "Error: Cannot alloc nl_socket.")
  add_with_socket interface_name (some sock) = do
    connected ← call (L.connect sock)
    if is_negative connected
        then (do
          socket_free sock
          fail nl_connect_error (text "Error: Cannot connect to nl_socket."))
        else (do link ← take_link L.link_alloc; add_with_link interface_name sock link)

  unfoldable pub create_vcan_interface_if_not_exists : Text → M L (Expected (Unit {0}))
  unfolding fail add_with_socket
  create_vcan_interface_if_not_exists interface_name = do
    index ← call (L.name_to_index interface_name)
    if not (index == 0) then pure (ok tt) else λ e.
        if not (L.errno e.world == enodev)
        then fail vcan_checking_error
            (text "Error checking interface '"
              ++ (interface_name
                  ++ (text "' before creation: " ++ L.strerror (pos (L.errno e.world)))))
            e
        else (do sock ← socket_alloc; add_with_socket interface_name sock) e
