-- ===== src/Wire/Codec.antt =====
-- Little-endian integers and the header fields of an attribute.
use platform_system_connecti.Base.{ℕ, zero, suc, ◌+◌, ◌*◌, ◌/◌, ◌%◌, List, [], ◌∷◌, take, drop}

abbrev pub Bytes : Type 0
Bytes = List ℕ

-- The low `w` bytes of a number, lowest first: a store through a `w`-byte unsigned type.
abbrev pub le_bytes : ℕ → ℕ → Bytes
le_bytes zero n = []
le_bytes (suc w) n = (n % 256) ∷ le_bytes w (n / 256)

abbrev pub le_value : Bytes → ℕ
le_value [] = 0
le_value (b ∷ bs) = b + 256 * le_value bs

-- A load of `w` bytes at an offset. Bytes behind the end count as absent.
unfoldable pub read_le : ℕ → ℕ → Bytes → ℕ
read_le w offset d = le_value (take w (drop offset d))

abbrev pub nla_hdrlen : ℕ
nla_hdrlen = 4

-- (n + 3) & ~3
unfoldable pub nla_align : ℕ → ℕ
nla_align n = (n + 3) / 4 * 4

-- The fields of `struct nlattr` at the front of a buffer.
unfoldable pub nla_len : Bytes → ℕ
unfolding read_le
nla_len d = read_le 2 0 d

unfoldable pub nla_type : Bytes → ℕ
unfolding read_le
nla_type d = read_le 2 2 d
