-- ===== src/Message/RoundTrip.antt =====
-- What the constructors of Message.hpp put into their buffers, and what a receiver reads.
use hy_can.Message.Wire.{length-fill, length-fill_if_any, c_str-fill, c_str-fill_if_any}
use hy_can.Message.{
  RequestType, ifnamsiz, register_response, state_request, query_request, message_response,
  query_response,
}
use hy_can.Base.{refl, Text, c_str, ℤ, length, take, length-replicate, ℕ, ◌≡◌, Bool, []}

-- Both constructors of a request fill a name buffer of IFNAMSIZ bytes, which the daemon reads as the
-- name of the client, cut to fifteen bytes.
pub interface_name_lem :
    (name : Text) (up flag : Bool) (rate : ℕ) (op : RequestType)
    → let s = state_request name up flag rate in
      let q = query_request op name in
      (length s.interface_name ≡ ifnamsiz)
      × (length q.interface_name ≡ ifnamsiz)
      × (c_str s.interface_name ≡ take 15 (c_str name))
      × (c_str q.interface_name ≡ take 15 (c_str name))
unfolding state_request query_request
interface_name_lem name up flag rate op =
    (length-fill 15 name, length-fill 15 name, c_str-fill 15 name, c_str-fill 15 name)

-- The message of a response stands in 256 bytes, cut to 255, and a query's response has none; the
-- channel name of a registration stands in 64 bytes, cut to 63.
pub responses_lem :
    (res : ℤ) (msg : Text) (x u : Bool)
    → let m = message_response res msg in
      let q = query_response res x u in
      let r = register_response res msg in
      (length m.error_message ≡ 256)
      × (length q.error_message ≡ 256)
      × (length r.client_channel_name ≡ 64)
      × (c_str m.error_message ≡ take 255 (c_str msg))
      × (c_str q.error_message ≡ [])
      × (c_str r.client_channel_name ≡ take 63 (c_str msg))
unfolding message_response query_response register_response c_str
responses_lem res msg x u = (
  length-fill_if_any 255 msg,
  length-replicate {A = ℕ} 256 0,
  length-fill_if_any 63 msg,
  c_str-fill_if_any 255 msg,
  refl,
  c_str-fill_if_any 63 msg,
)
