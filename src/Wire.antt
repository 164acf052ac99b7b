-- ===== src/Wire.antt =====
-- Bytes on the wire: little-endian integers, as every platform of this program lays them out, and
-- the sizes and the rounding that linux/netlink.h fixes for attributes (struct nlattr: a 16-bit
-- length, then a 16-bit type; NLA_HDRLEN 4, NLA_ALIGNTO 4).
mod Codec
mod Laws
pub use Laws.*
unfoldable pub use Codec.{
  Bytes, le_bytes, le_value, read_le, nla_hdrlen, nla_align, nla_len, nla_type,
}
