-- ===== src/Daemon/Exchange/Contract.antt =====
-- The whole of clients, workers and the NetlinkManager against the promises on the kernel's table.
use hy_can.IpcManager.Race.{run}
use hy_can.Netlink.Requests.Contract.{InterfaceTable, IsSameTable, Promise, process_request-Promise}
use hy_can.Netlink.Requests.{process_request}
use hy_can.Netlink.Manager.{NetlinkManager}
use hy_can.Netlink.Libnl.{Libnl, LibnlEnv}
use hy_can.Netlink.Kernel.{Kernel, IsLawful}
use hy_can.Message.{NetlinkResponse}
use hy_can.Daemon.Exchange.Bookkeeping.{Replays}
use hy_can.Daemon.Exchange.Answers.{answered_once}
use hy_can.Daemon.Exchange.{Processed, ExchangeMove, exchanges, at_first_exchange}
use hy_can.Base.{c_str, subst, ap, List, [], ◌∷◌}

-- The table after the processed requests, each of which keeps its promise.
abbrev pub IsTableRun : InterfaceTable → List Processed → InterfaceTable → Type 0
IsTableRun first [] after = IsSameTable first after
IsTableRun first (p ∷ history) after =
    (before : InterfaceTable) × IsTableRun first history before
    × Promise p.request.operation (c_str p.request.interface_name) p.request p.response before after

module _ (L : Libnl) (manager : NetlinkManager L) (K : Kernel L) (law : IsLawful L K)
    (first : LibnlEnv L) where
  run-IsTableRun :
      (history : List Processed) (kernel : LibnlEnv L)
      → Replays (process_request L manager) first history kernel
      → IsTableRun (K.find first.world) history (K.find kernel.world)
  run-IsTableRun [] kernel run = λ n. ap (λ (x : LibnlEnv L). K.find x.world n) run
  run-IsTableRun (p ∷ history) kernel (before, run, e) = (
    K.find before.world,
    run-IsTableRun history before run,
    subst
        (λ (r : NetlinkResponse × LibnlEnv L).
          Promise p.request.operation (c_str p.request.interface_name) p.request r.0
            (K.find before.world) (K.find r.1.world))
        e (process_request-Promise L manager K law p.request before),
  )

  -- However the clients and the workers interleave, time-outs included, the kernel's table is the one
  -- that the processed requests lead to one after the other, where each keeps its promise: what it
  -- may change, and what its response says of the table at its place in the sequence.
  pub exchanges_keep_promises :
      (ms : List ExchangeMove)
      → let s =
          exchanges
            (process_request L manager)
            ms
            (at_first_exchange (process_request L manager) first) in
        IsTableRun (K.find first.world) s.history (K.find s.kernel.world)
  exchanges_keep_promises ms =
      let s =
        exchanges (process_request L manager) ms
          (at_first_exchange (process_request L manager) first) in
      run-IsTableRun s.history s.kernel (answered_once L manager first ms).0
