-- ===== src/Daemon/Sessions/Channels.antt =====
-- The names of the clients' channels.
use hy_can.Message.Wire.{c_str-fill_if_any, c_str_of_NulFree}
use hy_can.UnixSocket.{Mode, sun_path_size, server, client, unix_socket, setup_address}
use hy_can.Message.{fill_if_any, register_response}
use hy_can.Daemon.Sessions.{generate_client_channel_name}
use hy_can.Base.{
  take, length-append, take-all, leb, ℕ, ap, ◌∙◌, false, Text, text, NulFree, c_str, show_int,
  show_int-NulFree, show_int-injective, IsInt32, length-show_int, ℤ, pos, length, All-append, ◌≤◌,
  ◌≡◌, some, [], ◌∷◌, ◌++◌, arith,
}

text-NulFree_prefix : NulFree (text "HyCAN_Client_")
unfolding text
text-NulFree_prefix = omega arith

pub generate-NulFree : (pid : ℤ) → NulFree (generate_client_channel_name pid)
unfolding generate_client_channel_name
generate-NulFree pid =
    All-append _ (text "HyCAN_Client_") (show_int pid) text-NulFree_prefix (show_int-NulFree pid)

pub length-generate : (pid : ℤ) → IsInt32 pid → length (generate_client_channel_name pid) ≤ 24
unfolding generate_client_channel_name text
length-generate pid h = omega (arith, length-show_int pid h)

pub append-cancel : (p s t : Text) → p ++ s ≡ p ++ t → s ≡ t
append-cancel [] s t e = e
append-cancel (c ∷ p) s t e = append-cancel p s t (cc)

-- Two clients have the same channel only if they are the same process.
pub generate-injective :
    (p q : ℤ) → generate_client_channel_name p ≡ generate_client_channel_name q → p ≡ q
unfolding generate_client_channel_name
generate-injective p q e =
    show_int-injective p q (append-cancel (text "HyCAN_Client_") (show_int p) (show_int q) e)

-- A name that fits into the buffer is read back from it.
told_name :
    (n : ℕ) (name : Text) → NulFree name → length name ≤ n → c_str (fill_if_any n name) ≡ name
told_name n name free fits =
    c_str-fill_if_any n name ∙ ap (take n) (c_str_of_NulFree name free) ∙ take-all n name fits

run_prefix_lem : (length (text "/run/hycan_") ≡ 11) × NulFree (text "/run/hycan_")
unfolding text
run_prefix_lem = omega arith

path_fits :
    (name : Text) (mode : Mode)
    → NulFree name
    → length name ≤ 24
    → setup_address (unix_socket name mode) ≡ some (text "/run/hycan_" ++ name)
unfolding setup_address unix_socket
path_fits name mode free fits =
    let path = text "/run/hycan_" ++ name in
    let whole : c_str path ≡ path =
      c_str_of_NulFree path (All-append _ (text "/run/hycan_") name run_prefix_lem.1 free) in
    let short : leb sun_path_size (length path) ≡ false =
      ground (arith, length-append (text "/run/hycan_") name, run_prefix_lem.0) in
    rw (short, whole)

-- The response carries the whole name of the client's channel, and the path of the channel's socket
-- fits into a socket address, so that the daemon listens where the client is told to connect.
pub channel_reaches_client :
    (pid : ℤ)
    → IsInt32 pid
    → let name = generate_client_channel_name pid in
      let told = c_str (register_response (pos 0) name).client_channel_name in
      (told ≡ name)
      × (setup_address (unix_socket told client) ≡ setup_address (unix_socket name server))
      × (setup_address (unix_socket name server) ≡ some (text "/run/hycan_" ++ name))
unfolding register_response setup_address unix_socket
channel_reaches_client pid h =
    let name = generate_client_channel_name pid in
    let read : c_str (register_response (pos 0) name).client_channel_name ≡ name =
      told_name 63 name (generate-NulFree pid) (omega (arith, length-generate pid h)) in
    (
      read,
      ap (λ n. setup_address (unix_socket n server)) read,
      path_fits name server (generate-NulFree pid) (omega (arith, length-generate pid h)),
    )
