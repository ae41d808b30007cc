-- ===== src/Tests/Table.antt =====
-- A machine that keeps its interfaces in a table, for the calls of libnl, and the proof that it does
-- what Netlink/Kernel.antt expects. Where `refuses` is set, no interface can be changed.

use hy_can.Netlink.Manager.{NetlinkManager}
use hy_can.Netlink.Kernel.{Status, Kernel, changed, status_of, new_vcan, IsLawful}
use hy_can.Netlink.Libnl.{Env, Libnl, iff_up}
use hy_can.Base.{
  Text, text, text_eq, ℤ, pos, is_negative, minus_one, ◌==◌, if◌then◌else◌, Bool-cases, ℕ, ◌%◌, ◌≡◌,
  refl, ◌≢◌, inl, inr, Bool, true, false, not, ◌&&◌, Option, none, some, [], arith,
}

pub record Machine : Type 0 where
  pub table : Text → Option Status
  pub refuses : Bool

pub record Link : Type 0 where
  pub address : ℕ
  pub name : Text
  pub status : Status
  pub new_up : Option Bool
  pub new_bitrate : Option ℕ

abbrev blank : Link
blank = record { address = 1; name = []; status = new_vcan; new_up = none; new_bitrate = none }

abbrev link_of : Text → Option Status → Option Link
link_of n none = none
link_of n (some s) =
    some (record { address = 2; name = n; status = s; new_up = none; new_bitrate = none })

abbrev index_of : Option Status → ℕ
index_of none = 0
index_of (some s) = 1

abbrev put : (Text → Option Status) → Text → Option Status → Text → Option Status
put table name s n = if text_eq n name then s else table n

abbrev apply_change : Link → Link → Machine → ℤ × Machine
apply_change l c w = if w.refuses then (minus_one, w) else (
  pos 0,
  record w {
    table = λ n. if text_eq n l.name then changed c.new_up c.new_bitrate (w.table n) else w.table n;
  },
)

abbrev add_link : Link → Machine → ℤ × Machine
add_link l w =
    if w.refuses
    then (minus_one, w)
    else (pos 0, record w { table = put w.table l.name (some new_vcan) })

abbrev pub machine_calls : Libnl
machine_calls = record {
  World = Machine;
  Sock = Unit {0};
  Cache = Unit {0};
  Link = Link;
  sock_address = λ s. 0;
  cache_address = λ c. 0;
  link_address = λ l. l.address;
  socket_alloc = λ w. some tt;
  connect = λ s w. (pos 0, w);
  alloc_cache = λ s w. ((pos 0, some tt), w);
  cache_refill = λ s c w. (pos 0, w);
  get_by_name = λ c n w. link_of n (w.table n);
  get_flags = λ l. if l.status.up then 1 else 0;
  is_can = λ l. l.status.is_can;
  link_alloc = λ w. some blank;
  set_flags = λ l f. record l { new_up = some true };
  unset_flags = λ l f. record l { new_up = some false };
  set_name = λ l t. record l { name = t };
  set_type = λ l t. (pos 0, l);
  can_set_bitrate = λ l b. record l { new_bitrate = some b };
  link_change = λ s l c w. apply_change l c w;
  link_add = λ s l w. add_link l w;
  geterror = λ e. text "error";
  name_to_index = λ t w. (index_of (w.table t), w);
  errno = λ w. 0;
  strerror = λ e. text "error";
}

abbrev pub machine_table : Kernel machine_calls
machine_table = record {
  find = λ w n. w.table n;
  status = λ l. l.status;
  link_name = λ l. l.name;
  wants_up = λ l. l.new_up;
  wants_bitrate = λ l. l.new_bitrate;
}

status_of-link_of : (n : Text) (s : Option Status) → status_of machine_table (link_of n s) ≡ s
status_of-link_of n none = refl
status_of-link_of n (some s) = refl

name_of-link_of : (n : Text) (s : Option Status) (l : Link) → link_of n s ≡ some l → l.name ≡ n
name_of-link_of n s l h = ground arith

flags_up : (l : Link) → ((if l.status.up then 1 else 0) % 2 == iff_up) ≡ l.status.up
flags_up l = elim (Bool-cases l.status.up) [ inl e ↦ rw e refl | inr e ↦ rw e refl ]

find_in : (x : Option Status) → index_of x ≢ 0 → (s : Status) × (x ≡ some s)
find_in x h = ground arith

find_changed :
    (l c : Link) (w : Machine) (n : Text)
    → (apply_change l c w).1.table n ≡ (
        if not (is_negative (apply_change l c w).0) && text_eq n l.name
        then changed c.new_up c.new_bitrate (w.table n)
        else w.table n)
find_changed l c w n = elim (Bool-cases w.refuses) [ inl e ↦ rw e refl | inr e ↦ rw e refl ]

find_added :
    (l : Link) (w : Machine) (n : Text)
    → (add_link l w).1.table n ≡ (
        if not (is_negative (add_link l w).0) && text_eq n l.name then some new_vcan else w.table n)
find_added l w n = elim (Bool-cases w.refuses) [ inl e ↦ rw e refl | inr e ↦ rw e refl ]

pub machine_table-IsLawful : IsLawful machine_calls machine_table
machine_table-IsLawful = record {
  find-refill = λ s c w n. refl;
  refill-fresh = λ s c w n h. status_of-link_of n (w.table n);
  get-name = λ c n w l h. name_of-link_of n (w.table n) l h;
  flags-up = flags_up;
  wants-alloc = λ w c h. ground arith;
  wants-set_flags = λ c. (refl, refl);
  wants-unset_flags = λ c. (refl, refl);
  wants-set_type = λ c t. (refl, refl);
  wants-set_bitrate = λ c b. (refl, refl);
  find-change = λ s l c w n. find_changed l c w n;
  find-name_to_index = λ t w n. refl;
  name_to_index-pos = λ t w h. find_in (w.table t) h;
  find-connect = λ s w n. refl;
  name-set_name = λ l t. refl;
  name-set_type = λ l t. refl;
  find-add = λ s l w n. find_added l w n;
}

-- `can0` is a CAN interface that is up, and there is no other interface.
abbrev pub can0 : Text
can0 = text "can0"

abbrev pub vcan7 : Text
vcan7 = text "vcan7"

abbrev pub can0_up : Status
can0_up = record { up = true; bitrate = 500_000; is_can = true }

abbrev pub machine : Bool → Machine
machine refuses = record { table = put (λ n. none) can0 (some can0_up); refuses = refuses }

abbrev pub books : Bool → Env machine_calls
books refuses = record {
  world = machine refuses;
  links_taken = λ a. 0;
  links_put = λ a. 0;
  sockets_taken = λ a. 0;
  sockets_freed = λ a. 0;
  caches_taken = λ a. 0;
  caches_freed = λ a. 0;
}

abbrev pub open_manager : NetlinkManager machine_calls
open_manager = record { nl_socket = some tt; link_cache = some tt }
