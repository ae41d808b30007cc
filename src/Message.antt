-- ===== src/Message.antt =====
-- include/HyCAN/Daemon/Message.hpp: the structures that clients and the daemon exchange.
-- A `char[N]` is the list of its N bytes. A `string_view` is the text of the `std::string` behind it,
-- which ends with a NUL, as every caller in the program passes one.
pub mod Wire
pub mod RoundTrip
use hy_can.Base.{
  ℕ, zero, suc, ◌+◌, ◌-◌, Bool, true, false, List, [], ◌∷◌, ◌++◌, Text, text, ℤ, pos, ◌==◌,
  if◌then◌else◌, replicate,
}

pub data RequestType : Type 0 where
  set_interface_state check_interface_state validate_can_hardware : RequestType
  create_vcan_interface client_register interface_exists interface_is_up : RequestType

-- `strncpy` of a C string into `n` bytes: what follows the NUL is filled with NULs, and a string
-- of `n` bytes or more is cut with no NUL.
unfoldable pub strncpy : ℕ → Text → Text
strncpy zero s = []
strncpy (suc n) [] = 0 ∷ strncpy n []
strncpy (suc n) (c ∷ s) = if c == 0 then replicate (suc n) 0 else c ∷ strncpy n s

-- `strncpy(buf, s, sizeof buf - 1); buf[sizeof buf - 1] = 0;` on a buffer of `n + 1` bytes.
unfoldable pub fill : ℕ → Text → Text
fill n s = strncpy n s ++ 0 ∷ []

-- `if (!s.empty()) { fill }` on a buffer of zeros.
unfoldable pub fill_if_any : ℕ → Text → Text
fill_if_any n [] = replicate (suc n) 0
fill_if_any n (c ∷ s) = fill n (c ∷ s)

-- `IFNAMSIZ`
abbrev pub ifnamsiz : ℕ
ifnamsiz = 16

pub record ClientRegisterRequest : Type 0 where
  pub client_pid : ℤ

pub record ClientRegisterResponse : Type 0 where
  pub result : ℤ
  pub client_channel_name : Text

unfoldable pub register_response : ℤ → Text → ClientRegisterResponse
register_response res channel_name = record {
  result = res;
  client_channel_name = fill_if_any 63 channel_name;
}

pub record NetlinkRequest : Type 0 where
  pub operation : RequestType
  pub up : Bool
  pub set_bitrate : Bool
  pub bitrate : ℕ
  pub interface_name : Text

-- The constructor for state changes.
unfoldable pub state_request : Text → Bool → Bool → ℕ → NetlinkRequest
state_request name state bitrate_flag rate = record {
  operation = set_interface_state;
  up = state;
  set_bitrate = bitrate_flag;
  bitrate = rate;
  interface_name = fill 15 name;
}

-- The constructor for queries.
unfoldable pub query_request : RequestType → Text → NetlinkRequest
query_request op name = record {
  operation = op;
  up = false;
  set_bitrate = false;
  bitrate = 0;
  interface_name = fill 15 name;
}

pub record NetlinkResponse : Type 0 where
  pub result : ℤ
  pub exists : Bool
  pub is_up : Bool
  pub error_message : Text

-- The constructor with a message.
unfoldable pub message_response : ℤ → Text → NetlinkResponse
message_response res msg = record {
  result = res;
  exists = false;
  is_up = false;
  error_message = fill_if_any 255 msg;
}

-- The constructor for query responses.
unfoldable pub query_response : ℤ → Bool → Bool → NetlinkResponse
query_response res exists_flag up_flag = record {
  result = res;
  exists = exists_flag;
  is_up = up_flag;
  error_message = replicate 256 0;
}
