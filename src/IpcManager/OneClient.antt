-- ===== src/IpcManager/OneClient.antt =====
-- The manager of a process as one client: its client is made at the first call and serves every later
-- one, so a process registers with the daemon as one client, whatever interfaces it has.

use hy_can.Util.Error.{Expected}
use hy_can.IpcManager.{
  new_manager, IpcManager, Ipc, ensure_initialized, on_client_set, ipc_set, ipc_exists, ipc_is_up,
  ipc_create_vcan, make_client, forward,
}
use hy_can.Client.Shell.{client_exists, client_is_up, client_create_vcan}
use hy_can.Client.{NetlinkClient, new_client, ClientLayout}
use hy_can.Base.{
  is_some, refl, ap, inl, inr, Text, ℤ, ℕ, ◌≡◌, ◌⊎◌, Bool, true, Option, none, some, List, [], ◌∷◌,
  arith,
}
use hy_can.UnixSocket.Syscalls.{call, Env, Posix}

-- A call of the manager.
pub data Call : Type 0 where
  set_call : Text → Bool → ℕ → Call
  exists_call is_up_call create_vcan_call : Text → Call

-- What a call returns.
pub data Answer : Type 0 where
  void_answer : Expected (Unit {0}) → Answer
  bool_answer : Expected Bool → Answer

-- The client that a manager works with.
abbrev pub client_of : IpcManager → NetlinkClient
client_of m = elim m.client [ some c ↦ c | none ↦ new_client ]

module _ (P : Posix) (layout : ClientLayout) (pid : ℤ) {W : Type 0} (system : Text → W → ℤ × W)
    (make_throws : W → Option Text) where
  ensure_initialized-keeps :
      (s : Ipc P W) → (ensure_initialized P layout pid system make_throws s).1.1 ≡ s.1
  unfolding ensure_initialized make_client
  ensure_initialized-keeps s = ground arith

  -- A query runs no command.
  pub ipc_exists-keeps_shell :
      (name : Text) (s : Ipc P W)
      → (ipc_exists P layout pid system make_throws name s).1.1.1 ≡ s.1.1
  unfolding ipc_exists forward
  ipc_exists-keeps_shell name s = ground (arith, ensure_initialized-keeps s)

  pub ipc_create_vcan-keeps_shell :
      (name : Text) (s : Ipc P W)
      → (ipc_create_vcan P layout pid system make_throws name s).1.1.1 ≡ s.1.1
  unfolding ipc_create_vcan forward
  ipc_create_vcan-keeps_shell name s = ground (arith, ensure_initialized-keeps s)

  unfoldable pub manager_call : Call → Ipc P W → Answer × Ipc P W
  manager_call (set_call name wants_up bitrate) s =
      let r = ipc_set P layout pid system make_throws name wants_up bitrate s in
      (void_answer r.0, r.1)
  manager_call (exists_call name) s =
      let r = ipc_exists P layout pid system make_throws name s in (bool_answer r.0, r.1)
  manager_call (is_up_call name) s =
      let r = ipc_is_up P layout pid system make_throws name s in (bool_answer r.0, r.1)
  manager_call (create_vcan_call name) s =
      let r = ipc_create_vcan P layout pid system make_throws name s in (void_answer r.0, r.1)

  -- The same call of a client.
  unfoldable pub client_call :
      Call → NetlinkClient → Env P × W → (Answer × NetlinkClient) × (Env P × W)
  client_call (set_call name wants_up bitrate) c s =
      let r = on_client_set P layout pid system make_throws name wants_up bitrate c s in
      ((void_answer r.0.0, r.0.1), r.1)
  client_call (exists_call name) c s =
      let r = client_exists P layout pid name c s.0 in ((bool_answer r.0.0, r.0.1), (r.1, s.1))
  client_call (is_up_call name) c s =
      let r = client_is_up P layout pid name c s.0 in ((bool_answer r.0.0, r.0.1), (r.1, s.1))
  client_call (create_vcan_call name) c s =
      let r = client_create_vcan P layout pid name c s.0 in ((void_answer r.0.0, r.0.1), (r.1, s.1))

  -- Calls one after the other.
  unfoldable pub manager_calls : List Call → Ipc P W → List Answer × Ipc P W
  manager_calls [] s = ([], s)
  manager_calls (call ∷ calls) s =
      let r = manager_call call s in let rest = manager_calls calls r.1 in (r.0 ∷ rest.0, rest.1)

  unfoldable pub client_calls :
      List Call → NetlinkClient → Env P × W → (List Answer × NetlinkClient) × (Env P × W)
  client_calls [] c s = (([], c), s)
  client_calls (call ∷ calls) c s =
      let r = client_call call c s in
      let rest = client_calls calls r.0.1 r.1 in ((r.0.0 ∷ rest.0.0, rest.0.1), rest.1)

  manager_call_lem :
      (call : Call) (m : IpcManager) (s : Env P × W)
      → (make_throws s.1 ≡ none) ⊎ (is_some m.client ≡ true)
      → let r = client_call call (client_of m) s in
        manager_call call (m, s) ≡ (r.0.0, (record m { client = some r.0.1 }, r.1))
  unfolding manager_call client_call ipc_set ipc_exists ipc_is_up ipc_create_vcan forward
      ensure_initialized make_client
  manager_call_lem call m s h = ground arith

  manager_calls_lem :
      (calls : List Call) (m : IpcManager) (s : Env P × W)
      → (make_throws s.1 ≡ none) ⊎ (is_some m.client ≡ true)
      → let r = manager_calls calls (m, s) in
        let c = client_calls calls (client_of m) s in
        (r.0 ≡ c.0.0) × (r.1.1 ≡ c.1) × (client_of r.1.0 ≡ c.0.1)
  unfolding manager_calls client_calls
  manager_calls_lem [] m s h = (refl, refl, refl)
  manager_calls_lem (call ∷ calls) m s h =
      let c = client_call call (client_of m) s in
      rw (manager_call_lem call m s h) (
        let rest = manager_calls_lem calls (record m { client = some c.0.1 }) c.1 (inr refl) in
        (ap (λ answers. c.0.0 ∷ answers) rest.0, rest.1, rest.2))

  -- Whatever calls the interfaces of a process make one after the other, the manager answers as one
  -- client would that is made before the first of them and kept: the answers are the same, and so is
  -- what the calls do to the channels and to the machine. The allocation of the client is not refused.
  pub manager_is_one_client :
      (calls : List Call) (s : Env P × W)
      → make_throws s.1 ≡ none
      → let r = manager_calls calls (new_manager, s) in
        let c = client_calls calls new_client s in
        (r.0 ≡ c.0.0) × (r.1.1 ≡ c.1) × (client_of r.1.0 ≡ c.0.1)
  unfolding new_manager
  manager_is_one_client calls s h = manager_calls_lem calls new_manager s (inl h)
