-- ===== src/Netlink/Manager.antt =====
-- src/Daemon/NetlinkManager.cpp. Every method holds the recursive mutex of the object from its first
-- line to its return, so a request is one step; the lock itself is not modelled.
pub mod Lifecycle
pub mod Queries
use hy_can.Base.{
  is_some, ℕ, suc, ◌+◌, ◌≡◌, Bool, true, false, not, ◌&&◌, Option, none, some, Text, text, ◌++◌, ℤ,
  pos, negsuc, ◌==◌, ◌%◌, is_negative, is_zero, minus_one, if◌then◌else◌, starts_with, c_str,
}
use hy_can.Util.Error.{Expected, ok, unexpected}
use hy_can.Message.{
  NetlinkRequest, NetlinkResponse, message_response, query_response, RequestType,
  set_interface_state, create_vcan_interface, interface_exists, interface_is_up,
}
use hy_can.Netlink.Libnl.{
  count_at, count_at, Libnl, Env, M, pure, ◌>>=◌, ◌>>◌, call, take_link, link_put, iff_up,
}
use hy_can.Netlink.Vcan.{socket_alloc, socket_free, create_vcan_interface_if_not_exists}

-- The two pointers; `none` is `nullptr`.
pub record NetlinkManager (L : Libnl) : Type 0 where
  pub nl_socket : Option L.Sock
  pub link_cache : Option L.Cache

-- Equality of two flags.
abbrev pub bool_eq : Bool → Bool → Bool
bool_eq true b = b
bool_eq false b = not b

module _ (L : Libnl) where
  -- `(rtnl_link_get_flags(link) & IFF_UP) != 0`
  abbrev pub link_is_up : L.Link → Bool
  link_is_up link = L.get_flags link % 2 == iff_up

  unfoldable pub empty_manager : NetlinkManager L
  empty_manager = record { nl_socket = none; link_cache = none }

  abbrev count_cache : Option L.Cache → Env L → Env L
  count_cache none e = e
  count_cache (some c) e = record e { caches_taken = count_at (L.cache_address c) e.caches_taken }

  -- `nl_cache_free(cache)`
  abbrev cache_free : L.Cache → M L (Unit {0})
  cache_free cache e =
      (tt, record e { caches_freed = count_at (L.cache_address cache) e.caches_freed })

  abbrev alloc_cache : L.Sock → M L (ℤ × Option L.Cache)
  alloc_cache sock e =
      let r = L.alloc_cache sock e.world in (r.0, count_cache r.0.1 (record e { world = r.1 }))

  -- `initialize` with the socket at hand.
  initialize_with : Option L.Sock → M L (ℤ × NetlinkManager L)
  unfolding empty_manager
  initialize_with none = pure (minus_one, empty_manager)
  initialize_with (some sock) = do
    connected ← call (L.connect sock)
    if is_negative connected then (do socket_free L sock; pure (minus_one, empty_manager)) else (do
      cache ← alloc_cache sock
      if is_negative cache.0
          then (do socket_free L sock; pure (minus_one, empty_manager))
          else pure (pos 0, record { nl_socket = some sock; link_cache = cache.1 }))

  unfoldable pub initialize : M L (ℤ × NetlinkManager L)
  unfolding initialize_with
  initialize = do sock ← socket_alloc L; initialize_with sock

  free_cache_if_any : Option L.Cache → M L (Unit {0})
  free_cache_if_any none = pure tt
  free_cache_if_any (some c) = cache_free c

  free_socket_if_any : Option L.Sock → M L (Unit {0})
  free_socket_if_any none = pure tt
  free_socket_if_any (some s) = socket_free L s

  unfoldable pub cleanup : NetlinkManager L → M L (NetlinkManager L)
  unfolding free_cache_if_any free_socket_if_any empty_manager
  cleanup m = do free_cache_if_any m.link_cache; free_socket_if_any m.nl_socket; pure empty_manager

  module _ (m : NetlinkManager L) where
    abbrev pub refill : M L ℤ
    refill = call (L.cache_refill m.nl_socket m.link_cache)

    abbrev pub get_by_name : Text → M L (Option L.Link)
    get_by_name name = take_link (L.get_by_name m.link_cache name)

    -- `if (link) rtnl_link_put(link);`
    put_if_any : Option L.Link → M L (Unit {0})
    put_if_any none = pure tt
    put_if_any (some link) = link_put link

    unfoldable pub check_interface_exists : Text → M L NetlinkResponse
    unfolding put_if_any
    check_interface_exists interface_name = do
      refilled ← refill
      if is_negative refilled then pure (query_response minus_one false false) else (do
        link ← get_by_name interface_name
        put_if_any link
        pure (query_response (pos 0) (is_some link) false))

    abbrev pub up_if_any : Option L.Link → Bool
    up_if_any none = false
    up_if_any (some link) = link_is_up link

    unfoldable pub check_interface_is_up : Text → M L NetlinkResponse
    unfolding put_if_any
    check_interface_is_up interface_name = do
      refilled ← refill
      if is_negative refilled then pure (query_response minus_one false false) else (do
        link ← get_by_name interface_name
        put_if_any link
        pure (query_response (pos 0) (is_some link) (up_if_any link)))
