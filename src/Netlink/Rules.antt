-- ===== src/Netlink/Rules.antt =====
-- Proof rules for a relation between the environments before and after a call.

use hy_can.Netlink.Libnl.{Libnl, Env, M}

-- The relation holds between the environments before and after every run of the call.
abbrev pub Keeps : {L : Libnl} {A : Type 0} → (Env L → Env L → Type 0) → M L A → Type 0
Keeps R m = (e : _) → R e (m e).1

pub record IsPreorder {L : Libnl} (R : Env L → Env L → Type 0) : Type 0 where
  pub reflexive : (e : Env L) → R e e
  pub transitive : {a b c : Env L} → R a b → R b c → R a c
