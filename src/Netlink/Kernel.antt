-- ===== src/Netlink/Kernel.antt =====
-- The kernel's table of interfaces, as far as libnl documents what its calls read and change.
-- Nobody but the daemon changes an interface while a request is being served.
use hy_can.Base.{
  ◌≢◌, ℕ, ◌≡◌, Bool, true, false, not, ◌&&◌, Option, none, some, Text, text_eq, ◌%◌, ◌==◌,
  is_negative, if◌then◌else◌,
}
use hy_can.Netlink.Libnl.{Libnl, iff_up}

pub record Status : Type 0 where
  pub up : Bool
  pub bitrate : ℕ
  pub is_can : Bool

-- What of the table can be seen through libnl's values.
pub record Kernel (L : Libnl) : Type 0 where
  pub find : L.World → Text → Option Status
  pub status : L.Link → Status
  pub link_name : L.Link → Text
  -- What a change object asks for.
  pub wants_up : L.Link → Option Bool
  pub wants_bitrate : L.Link → Option ℕ

abbrev pub get_or {ℓ} : {A : Type ℓ} → Option A → A → A
get_or none d = d
get_or (some a) d = a

-- An interface after a change that asks for `u` and `b`.
abbrev pub changed : Option Bool → Option ℕ → Option Status → Option Status
changed u b none = none
changed u b (some s) = some (record s { up = get_or u s.up; bitrate = get_or b s.bitrate })

-- The table `f'` is `f` with a change of one interface.
abbrev pub IsUpdate :
    Text → Option Bool → Option ℕ → (Text → Option Status) → (Text → Option Status) → Type 0
IsUpdate name u b f f' = (n : Text) → f' n ≡ (if text_eq n name then changed u b (f n) else f n)

abbrev pub status_of : {L : Libnl} → Kernel L → Option L.Link → Option Status
status_of K none = none
status_of K (some l) = some (K.status l)

abbrev pub new_vcan : Status
new_vcan = record { up = false; bitrate = 0; is_can = false }

pub record IsLawful (L : Libnl) (K : Kernel L) : Type 0 where
  -- Reading changes nothing, and a refilled cache shows the table.
  pub find-refill :
      (s : Option L.Sock) (c : Option L.Cache) (w : L.World) (n : Text)
      → K.find (L.cache_refill s c w).1 n ≡ K.find w n
  pub refill-fresh :
      (s : Option L.Sock) (c : Option L.Cache) (w : L.World) (n : Text)
      → is_negative (L.cache_refill s c w).0 ≡ false
      → status_of K (L.get_by_name c n (L.cache_refill s c w).1) ≡ K.find w n
  pub get-name :
      (c : Option L.Cache) (n : Text) (w : L.World) (l : L.Link)
      → L.get_by_name c n w ≡ some l
      → K.link_name l ≡ n
  pub flags-up : (l : L.Link) → (L.get_flags l % 2 == iff_up) ≡ (K.status l).up
  -- A new object asks for nothing, and the setters for one thing each.
  pub wants-alloc :
      (w : L.World) (c : L.Link)
      → L.link_alloc w ≡ some c
      → (K.wants_up c ≡ none) × (K.wants_bitrate c ≡ none)
  pub wants-set_flags :
      (c : L.Link)
      → (K.wants_up (L.set_flags c iff_up) ≡ some true)
        × (K.wants_bitrate (L.set_flags c iff_up) ≡ K.wants_bitrate c)
  pub wants-unset_flags :
      (c : L.Link)
      → (K.wants_up (L.unset_flags c iff_up) ≡ some false)
        × (K.wants_bitrate (L.unset_flags c iff_up) ≡ K.wants_bitrate c)
  pub wants-set_type :
      (c : L.Link) (t : Text)
      → (K.wants_up (L.set_type c t).1 ≡ K.wants_up c)
        × (K.wants_bitrate (L.set_type c t).1 ≡ K.wants_bitrate c)
  pub wants-set_bitrate :
      (c : L.Link) (b : ℕ)
      → (K.wants_up (L.can_set_bitrate c b) ≡ K.wants_up c)
        × (K.wants_bitrate (L.can_set_bitrate c b) ≡ some b)
  -- A change that does not fail changes the one interface, and a change that fails changes nothing.
  pub find-change :
      (s : Option L.Sock) (l c : L.Link) (w : L.World) (n : Text)
      → K.find (L.link_change s l c w).1 n ≡ (
          if not (is_negative (L.link_change s l c w).0) && text_eq n (K.link_name l)
          then changed (K.wants_up c) (K.wants_bitrate c) (K.find w n)
          else K.find w n)
  -- The calls that create an interface.
  pub find-name_to_index :
      (t : Text) (w : L.World) (n : Text) → K.find (L.name_to_index t w).1 n ≡ K.find w n
  pub name_to_index-pos :
      (t : Text) (w : L.World) → (L.name_to_index t w).0 ≢ 0 → (s : Status) × (K.find w t ≡ some s)
  pub find-connect : (s : L.Sock) (w : L.World) (n : Text) → K.find (L.connect s w).1 n ≡ K.find w n
  pub name-set_name : (l : L.Link) (t : Text) → K.link_name (L.set_name l t) ≡ t
  pub name-set_type : (l : L.Link) (t : Text) → K.link_name (L.set_type l t).1 ≡ K.link_name l
  pub find-add :
      (s : L.Sock) (l : L.Link) (w : L.World) (n : Text)
      → K.find (L.link_add s l w).1 n ≡ (
          if not (is_negative (L.link_add s l w).0) && text_eq n (K.link_name l)
          then some new_vcan
          else K.find w n)
