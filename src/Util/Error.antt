-- ===== src/Util/Error.antt =====
-- include/HyCAN/Util/Error.hpp, and `tl::expected` as a sum of a value and an error.
use hy_can.Base.{false, true, Bool, Text, ◌≡◌, refl, ◌⊎◌, inl, inr}

pub data ErrorCode : Type 0 where
  vcan_checking_error vcan_creation_error : ErrorCode
  nl_socket_alloc_error nl_connect_error rtnl_link_alloc_error rtnl_link_add_error : ErrorCode
  netlink_socket_not_initialized netlink_connect_error netlink_interface_not_found : ErrorCode
  netlink_bring_down_error netlink_bring_up_error : ErrorCode
  can_socket_create_error can_interface_index_error can_socket_bind_error : ErrorCode
  can_socket_write_error can_socket_buffer_full can_invalid_socket_error can_flush_error : ErrorCode
  epoll_error reaper_stop_error memory_lock_error thread_real_time_error : ErrorCode
  cpu_affinity_error empty_func_error func_can_id_set_error : ErrorCode

pub record Error : Type 0 where
  pub code : ErrorCode
  pub message : Text

abbrev pub error : ErrorCode → Text → Error
error c m = record { code = c; message = m }

-- `tl::expected<A, Error>`
pub data Expected {ℓ} (A : Type ℓ) : Type ℓ where
  ok : A → Expected A
  unexpected : Error → Expected A

-- `has_value()`
abbrev pub is_ok {ℓ} : {A : Type ℓ} → Expected A → Bool
is_ok (ok a) = true
is_ok (unexpected e) = false

pub Expected-cases {ℓ} :
    {A : Type ℓ} (x : Expected A) → ((a : A) × (x ≡ ok a)) ⊎ ((e : Error) × (x ≡ unexpected e))
Expected-cases (ok a) = inl (a, refl)
Expected-cases (unexpected e) = inr (e, refl)
