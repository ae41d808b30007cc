-- ===== src/Netlink/Libnl.antt =====
-- libnl, if_nametoindex and errno, as the two files call them, and the state that a call passes on.
-- An allocation fails or succeeds by the state of the world, and changes nothing that can be asked.
use hy_can.Base.{◌==◌, if◌then◌else◌, ℕ, suc, Bool, Option, none, some, Text, ℤ}

pub record Libnl : Type 1 where
  pub World : Type 0
  pub Sock : Type 0
  pub Cache : Type 0
  pub Link : Type 0
  -- The addresses of the objects: a pointer keeps that of its object, whatever is set in the object.
  pub sock_address : Sock → ℕ
  pub cache_address : Cache → ℕ
  pub link_address : Link → ℕ
  pub socket_alloc : World → Option Sock
  pub connect : Sock → World → ℤ × World
  pub alloc_cache : Sock → World → (ℤ × Option Cache) × World
  pub cache_refill : Option Sock → Option Cache → World → ℤ × World
  pub get_by_name : Option Cache → Text → World → Option Link
  pub get_flags : Link → ℕ
  pub is_can : Link → Bool
  pub link_alloc : World → Option Link
  pub set_flags : Link → ℕ → Link
  pub unset_flags : Link → ℕ → Link
  pub set_name : Link → Text → Link
  pub set_type : Link → Text → ℤ × Link
  pub can_set_bitrate : Link → ℕ → Link
  pub link_change : Option Sock → Link → Link → World → ℤ × World
  pub link_add : Sock → Link → World → ℤ × World
  pub geterror : ℤ → Text
  pub name_to_index : Text → World → ℕ × World
  pub errno : World → ℕ
  pub strerror : ℤ → Text

-- `IFF_UP` is bit 0 of the flags.
abbrev pub iff_up : ℕ
iff_up = 1

-- The world, and how often the code has taken and given back the link object, the socket and the cache
-- of each address.
pub record Env (L : Libnl) : Type 0 where
  pub world : L.World
  pub links_taken : ℕ → ℕ
  pub links_put : ℕ → ℕ
  pub sockets_taken : ℕ → ℕ
  pub sockets_freed : ℕ → ℕ
  pub caches_taken : ℕ → ℕ
  pub caches_freed : ℕ → ℕ

-- A count for each address, with `a` counted once more.
abbrev pub count_at : ℕ → (ℕ → ℕ) → ℕ → ℕ
count_at a counts b = if a == b then suc (counts b) else counts b

abbrev pub M : Libnl → Type 0 → Type 0
M L A = Env L → A × Env L

abbrev pub pure : {L : Libnl} {A : Type 0} → A → M L A
pure a e = (a, e)

infixl 5 ◌>>=◌ ◌>>◌
abbrev pub ◌>>=◌ : {L : Libnl} {A B : Type 0} → M L A → (A → M L B) → M L B
◌>>=◌ m f e = let r = m e in f r.0 r.1

abbrev pub ◌>>◌ : {L : Libnl} {A B : Type 0} → M L A → M L B → M L B
m >> k = m >>= λ _. k

-- A call that changes the world.
abbrev pub call : {L : Libnl} {A : Type 0} → (L.World → A × L.World) → M L A
call f e = let r = f e.world in (r.0, record e { world = r.1 })

-- A call that returns a link object, which the caller owns.
abbrev pub count_link : {L : Libnl} → Option L.Link → Env L → Env L
count_link none e = e
count_link {L} (some l) e = record e { links_taken = count_at (L.link_address l) e.links_taken }

abbrev pub take_link : {L : Libnl} → (L.World → Option L.Link) → M L (Option L.Link)
take_link f e = let r = f e.world in (r, count_link r e)

-- `rtnl_link_put(link)`
abbrev pub link_put : {L : Libnl} → L.Link → M L (Unit {0})
link_put {L} link e = (tt, record e { links_put = count_at (L.link_address link) e.links_put })

-- The environment under the name that modules which have two kinds of them use.
abbrev pub LibnlEnv : Libnl → Type 0
LibnlEnv L = Env L
