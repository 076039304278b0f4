-- ===== src/Cache/Resource.antt =====
-- crates/rocketsocket-cache/src/resource.rs: a set of entity kinds, as the bits of a `u32`.
use rocketsocket.Base.{ℕ, ◌-◌, Bool, not, ◌==◌, ℕ_eq, String_eq, Option_eq}
use Prim.Native.Nat.{bit_and, bit_or, bit_xor}

-- The `u32` of a `ResourceType`.
abbrev pub ResourceType : Type 0
ResourceType = ℕ

abbrev pub room : ResourceType
room = 1

abbrev pub user : ResourceType
user = 2

abbrev pub subscription : ResourceType
subscription = 4

abbrev pub message : ResourceType
message = 8

abbrev pub current_user : ResourceType
current_user = 16

abbrev pub all : ResourceType
all = 31

abbrev pub u32_max : ℕ
u32_max = 4294967295

abbrev pub empty : ResourceType
empty = 0

unfoldable pub from_bits_truncate : ℕ → ResourceType
from_bits_truncate bits = bit_and bits all

unfoldable pub contains : ResourceType → ResourceType → Bool
contains s other = bit_and s other == other

unfoldable pub intersects : ResourceType → ResourceType → Bool
intersects s other = not (bit_and s other == 0)

unfoldable pub union : ResourceType → ResourceType → ResourceType
union s other = bit_or s other

unfoldable pub intersection : ResourceType → ResourceType → ResourceType
intersection s other = bit_and s other

-- `!` on a `u32` is the difference from its largest value.
unfoldable pub difference : ResourceType → ResourceType → ResourceType
difference s other = bit_and s (u32_max - other)

unfoldable pub complement : ResourceType → ResourceType
complement s = bit_and (u32_max - s) all

unfoldable pub symmetric_difference : ResourceType → ResourceType → ResourceType
symmetric_difference s other = bit_xor s other
