-- ===== src/Can/Socket/Connected.antt =====
-- What `ensure_connected` and `flush` promise, and what the destructor does.

use hy_can.Util.Error.{Expected, ok, unexpected}
use hy_can.Message.Wire.{c_str-fill, c_str_of_NulFree}
use hy_can.Message.{fill, ifnamsiz}
use hy_can.Can.Socket.{flush, Socket, new_socket, has_fd, ifr_name, destroy, flush_loop, flush_end}
use hy_can.Can.Network.{Network, Env}
use hy_can.Base.{
  ◌&&◌, int_eq, count_fd, is_some, refl, Text, NulFree, c_str, c_str-append_nul, ℤ, pos,
  is_minus_one, is_nonpositive, minus_one, length, take, All-take, if◌then◌else◌, Bool-cases, ℕ,
  zero, suc, ◌-◌, ◌<◌, min, ◌≡◌, sym, ap, ◌∙◌, inl, inr, true, false, not, ◌||◌, some, arith,
}

-- How often the object holds the descriptor `d`.
abbrev pub owned : ℤ → Socket → ℕ
owned d s = if has_fd s && int_eq s.sock_fd d then 1 else 0

-- After a connection the socket has a descriptor; after a failure it has -1.
abbrev pub IsOutcome : Expected (Unit {0}) → Socket → Type 0
IsOutcome (ok _) s = has_fd s ≡ true
IsOutcome (unexpected e) s = s.sock_fd ≡ minus_one

-- A file descriptor is -1 or positive: 0 is the standard input.
abbrev pub IsDescriptor : ℤ → Type 0
IsDescriptor fd = (is_minus_one fd || not (is_nonpositive fd)) ≡ true

module _ (N : Network) where
  -- The loop of `flush` ends: each frame that is read is one that was pending, so fuel above the
  -- number of pending frames is enough.
  pub flush_ends :
      (pending : N.World → ℕ)
      → ((fd : ℤ) (w : N.World)
          → is_nonpositive (N.read fd w).0 ≡ false
          → pending (N.read fd w).1 < pending w)
      → (fuel : ℕ) (fd : ℤ) (e : Env N) → pending e.world < fuel
      → (r : Expected (Unit {0})) × ((flush_loop N fuel fd e).0 ≡ some r)
  unfolding flush_loop
  flush_ends pending fewer zero fd e h = absurd (omega arith)
  flush_ends pending fewer (suc fuel) fd e h =
      let r = N.read fd e.world in
      elim (Bool-cases (is_nonpositive r.0)) [
        | inl end ↦ ((flush_end N r.0 (record e { world = r.1 })).0, rw end)
        | inr more ↦ rw more (
            flush_ends pending fewer fuel fd (record e { world = r.1 })
              (omega (arith, fewer fd e.world more)))
      ]

  -- A `read` that gives a frame leaves fewer, and never are there as many as the fuel.
  pub record IsEnoughFuel (fuel : ℕ) : Type 0 where
    pub pending : N.World → ℕ
    pub fewer :
        (fd : ℤ) (w : N.World)
        → is_nonpositive (N.read fd w).0 ≡ false
        → pending (N.read fd w).1 < pending w
    pub bounded : (w : N.World) → pending w < fuel

  pub flush-is_some :
      (fuel : ℕ) (s : Socket) (e : Env N) → IsEnoughFuel fuel → is_some (flush N fuel s e).0 ≡ true
  unfolding flush
  flush-is_some fuel s e h =
      ground (arith, (flush_ends h.pending h.fewer fuel s.sock_fd e (h.bounded e.world)).1)

  flush_loop-sent : (fuel : ℕ) (fd : ℤ) (e : Env N) → (flush_loop N fuel fd e).1.sent ≡ e.sent
  unfolding flush_loop flush_end
  flush_loop-sent zero fd e = refl
  flush_loop-sent (suc fuel) fd e =
      let e' : Env N = record e { world = (N.read fd e.world).1 } in
      ground (arith, flush_loop-sent fuel fd e')

  pub flush-sent : (fuel : ℕ) (s : Socket) (e : Env N) → (flush N fuel s e).1.sent ≡ e.sent
  unfolding flush
  flush-sent fuel s e = ground (arith, flush_loop-sent fuel s.sock_fd e)

  -- A Socket that was never connected closes descriptor 0, which it never opened.
  pub destroy-new_socket :
      (name : Text) (e : Env N)
      → let e' = (destroy N (new_socket name) e).1 in
        (e'.world ≡ N.close (pos 0) e.world)
        × (e'.closed ≡ count_fd (pos 0) e.closed)
        × (e'.opened ≡ e.opened)
        × ((d : ℤ) → owned d (new_socket name) ≡ 0)
  unfolding destroy new_socket
  destroy-new_socket name e = (refl, refl, refl, λ d. refl)

-- The kernel is asked for the same name that the daemon was sent: both buffers hold the name cut to
-- its first 15 bytes.
pub ifr_name-fill :
    (name : Text)
    → NulFree name
    → (c_str (ifr_name name) ≡ c_str (fill 15 name)) × (c_str (ifr_name name) ≡ take 15 name)
unfolding ifr_name
ifr_name-fill name h =
    let room : ifnamsiz - min (length name) 15 ≡ suc (15 - min (length name) 15) = omega arith in
    let cut : c_str (ifr_name name) ≡ take 15 name =
      rw room (c_str-append_nul (take 15 name) _ (All-take _ 15 name h)) in
    (cut ∙ sym (c_str-fill 15 name ∙ ap (take 15) (c_str_of_NulFree name h)), cut)
