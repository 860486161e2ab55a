-- ===== src/Maps/Attr.antt =====
-- bpfmap/bpfmap.h: the attributes of a map, the update flags, the rounding macro; and the errno
-- values that the map operations set.
pub mod Rounding
use Prim.Native.Nat.{bit_or}
use bpfabric.Prelude.{ℕ, ◌+◌, ◌-◌, ◌*◌, ◌/◌, ◌%◌, List, [], ◌∷◌}
use bpfabric.Prelude.Words.{u32_mod}

-- The anonymous struct of `union bpf_attr` that `bpf_create_map` fills.
pub record Attr : Type 0 where
  pub map_type : ℕ
  pub key_size : ℕ
  pub value_size : ℕ
  pub max_entries : ℕ
  pub map_flags : ℕ

-- BPF_ANY, BPF_NOEXIST, BPF_EXIST
abbrev pub bpf_any : ℕ
bpf_any = 0

abbrev pub bpf_noexist : ℕ
bpf_noexist = 1

abbrev pub bpf_exist : ℕ
bpf_exist = 2

pub data Errno : Type 0 where
  einval e2big eexist enoent enomem : Errno

-- The result 0 with the new state, or -1 with `errno`.
pub data Result {ℓ} (A : Type ℓ) : Type ℓ where
  ok : A → Result A
  err : Errno → Result A

-- `round_up(x, 8)` on `uint32_t`: `(((x) - 1) | 7) + 1`
unfoldable pub round_up : ℕ → ℕ
round_up x = (bit_or ((x + (u32_mod - 1)) % u32_mod) 7 + 1) % u32_mod

-- `*(uint32_t *)key`, and the bytes that `*next = x` writes
unfoldable pub u32_of : List ℕ → ℕ
u32_of (a ∷ b ∷ c ∷ d ∷ rest) = a + 0x100 * b + 0x1_0000 * c + 0x100_0000 * d
u32_of _ = 0

unfoldable pub bytes_of : ℕ → List ℕ
bytes_of x = (x % 256) ∷ (x / 0x100 % 256) ∷ (x / 0x1_0000 % 256) ∷ (x / 0x100_0000 % 256) ∷ []
