-- ===== src/Interface/Object/Life/InOrder.antt =====
-- What holds of an interface through its life: its reaper, its lock and its callbacks.
use hy_can.Interface.Object.Life.{Operation, op_register, registrations_of, performs}
use hy_can.Client.{ClientLayout}
use hy_can.Can.Dispatcher.Subscriptions.{subscribed}
use hy_can.Can.Dispatcher.Registration.{AreStandard}
use hy_can.Base.{◌⊎◌, ◌⊎◌, Text, ℤ, ℕ, ◌≡◌, false, Option, none, some, List, [], ◌∷◌}
use hy_can.UnixSocket.Syscalls.{Posix}
use hy_can.Interface.Object.{Interface, Systems}
use hy_can.Can.Network.{Network}
use hy_can.Can.Dispatcher.Lifecycle.{Poll, IsOneThread}

module _ {F : Type 0} (N : Network) (poll : Poll N) (P : Posix) (layout : ClientLayout) (pid : ℤ)
    {W : Type 0} (system : Text → W → ℤ × W) (make_throws : W → Option Text) where
  -- The reaper is counted, the lock is free, and the callbacks are these.
  pub record IsInOrder (funcs : ℕ → Option F) (i : Interface F) : Type 0 where
    pub one_thread : IsOneThread N poll i.line
    pub unlocked : i.dispatcher.lock ≡ false
    pub callbacks : i.dispatcher.funcs ≡ funcs

  -- The calls have returned, with the object and the environment as they leave them, or one of them does
  -- not return: a stop waits for a reaper that does not end.
  abbrev pub Outcome : (ℕ → Option F) → Option (Interface F × Systems N P W) → Type 0
  Outcome funcs r =
      ((t : Interface F × Systems N P W) × (r ≡ some t) × IsInOrder funcs t.0)
      ⊎ (r ≡ none) × (w : N.World) × (poll.reaper_ends w ≡ false)

  abbrev pub IsStandardOperation : Operation F → Type 0
  IsStandardOperation (op_register ids f) = AreStandard ids
  IsStandardOperation _ = Unit {0}

  abbrev callbacks_after : Operation F → (ℕ → Option F) → ℕ → Option F
  callbacks_after op funcs = subscribed (registrations_of (op ∷ [])) funcs

  -- The rest of the calls, if the first one has returned.
  abbrev then_perform :
      ℕ
      → List (Operation F)
      → Option (Interface F × Systems N P W)
      → Option (Interface F × Systems N P W)
  then_perform fuel ops o = elim o [
    | none ↦ none
    | some r ↦ performs N poll P layout pid system make_throws fuel ops r.0 r.1
  ]

  IsFirst : Option (Interface F) → Type 0
  IsFirst none = Unit {0}
  IsFirst (some i) = IsInOrder (λ id. none) i
