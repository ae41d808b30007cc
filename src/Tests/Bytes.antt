-- ===== src/Tests/Bytes.antt =====
-- A layout of the structures as lists of numbers.

use hy_can.Message.{
  RequestType, set_interface_state, check_interface_state, validate_can_hardware,
  create_vcan_interface, client_register, interface_exists, interface_is_up, register_response,
  NetlinkRequest, query_request, NetlinkResponse, query_response,
}
use hy_can.Daemon.Worker.{Layout}
use hy_can.Client.EndToEnd.{IsFaithful}
use hy_can.Client.{ClientLayout}
use hy_can.Base.{
  Text, ℤ, pos, negsuc, minus_one, ◌==◌, if◌then◌else◌, ℕ, zero, suc, ◌≡◌, refl, Bool, true, false,
  [], ◌∷◌,
}

abbrev of_bool : Bool → ℕ
of_bool false = 0
of_bool true = 1

abbrev to_bool : ℕ → Bool
to_bool zero = false
to_bool (suc n) = true

abbrev of_int : ℤ → ℕ × ℕ
of_int (pos n) = (0, n)
of_int (negsuc n) = (1, n)

abbrev to_int : ℕ → ℕ → ℤ
to_int zero n = pos n
to_int (suc k) n = negsuc n

abbrev of_type : RequestType → ℕ
of_type set_interface_state = 0
of_type check_interface_state = 1
of_type validate_can_hardware = 2
of_type create_vcan_interface = 3
of_type client_register = 4
of_type interface_exists = 5
of_type interface_is_up = 6

abbrev to_type : ℕ → RequestType
to_type n =
    if n == 0
    then set_interface_state
    else if n == 1
    then check_interface_state
    else if n == 2
    then validate_can_hardware
    else if n == 3
    then create_vcan_interface
    else if n == 4
    then client_register
    else if n == 5
    then interface_exists
    else interface_is_up

abbrev pub write_request : NetlinkRequest → Text
write_request r =
    of_type r.operation ∷ of_bool r.up ∷ of_bool r.set_bitrate ∷ r.bitrate ∷ r.interface_name

abbrev pub read_request : Text → NetlinkRequest
read_request (op ∷ u ∷ b ∷ rate ∷ name) = record {
  operation = to_type op;
  up = to_bool u;
  set_bitrate = to_bool b;
  bitrate = rate;
  interface_name = name;
}
read_request _ = query_request client_register []

abbrev pub write_response : NetlinkResponse → Text
write_response r =
    let i = of_int r.result in i.0 ∷ i.1 ∷ of_bool r.exists ∷ of_bool r.is_up ∷ r.error_message

abbrev pub read_response : Text → NetlinkResponse
read_response (s ∷ n ∷ x ∷ u ∷ msg) = record {
  result = to_int s n;
  exists = to_bool x;
  is_up = to_bool u;
  error_message = msg;
}
read_response _ = query_response minus_one false false

abbrev pub ours : ClientLayout
ours = record {
  register_response_size = 68;
  response_size = 264;
  encode_register_request = λ r. [];
  encode_request = write_request;
  decode_register_response = λ bytes. register_response (pos 0) bytes;
  decode_response = read_response;
}

abbrev pub theirs : Layout
theirs = record {
  register_request_size = 4;
  request_size = 28;
  decode_register_request = λ bytes. record { client_pid = pos 77 };
  decode_request = read_request;
  encode_register_response = λ r. r.client_channel_name;
  encode_response = write_response;
}

to_bool-of_bool : (b : Bool) → to_bool (of_bool b) ≡ b
to_bool-of_bool false = refl
to_bool-of_bool true = refl

to_type-of_type : (t : RequestType) → to_type (of_type t) ≡ t
to_type-of_type set_interface_state = refl
to_type-of_type check_interface_state = refl
to_type-of_type validate_can_hardware = refl
to_type-of_type create_vcan_interface = refl
to_type-of_type client_register = refl
to_type-of_type interface_exists = refl
to_type-of_type interface_is_up = refl

to_int-of_int : (x : ℤ) → to_int (of_int x).0 (of_int x).1 ≡ x
to_int-of_int (pos n) = refl
to_int-of_int (negsuc n) = refl

pub read_request-write_request : (r : NetlinkRequest) → read_request (write_request r) ≡ r
read_request-write_request r =
    rw (to_type-of_type r.operation, to_bool-of_bool r.up, to_bool-of_bool r.set_bitrate) refl

pub read_response-write_response : (r : NetlinkResponse) → read_response (write_response r) ≡ r
read_response-write_response r =
    rw (to_int-of_int r.result, to_bool-of_bool r.exists, to_bool-of_bool r.is_up) refl

pub layouts-IsFaithful : IsFaithful ours theirs
layouts-IsFaithful = record {
  requests = read_request-write_request;
  responses = read_response-write_response;
}
