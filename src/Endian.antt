-- ===== src/Endian.antt =====
-- impl/endian.h: words of a fixed byte order, on a host of either byte order. `n` is the size of the
-- word in bytes.
pub mod Bytes
mod Tests
use fsview.Base.{
  ℕ, zero, suc, ◌+◌, ◌*◌, ◌/◌, ◌%◌, Bool, true, false, not, List, [], ◌∷◌, ◌++◌, if◌then◌else◌,
  ◌==◌,
}

-- The bytes of a word, the least or the most significant byte first.
abbrev pub lsb : ℕ → ℕ → List ℕ
lsb zero x = []
lsb (suc n) x = x % 256 ∷ lsb n (x / 256)

abbrev pub msb : ℕ → ℕ → List ℕ
msb zero x = []
msb (suc n) x = msb n (x / 256) ++ (x % 256 ∷ [])

abbrev pub from_lsb : List ℕ → ℕ
from_lsb [] = 0
from_lsb (b ∷ bytes) = b + 256 * from_lsb bytes

-- bswap_16, bswap_32 and bswap_64.
unfoldable pub swap : ℕ → ℕ → ℕ
swap n x = from_lsb (msb n x)

-- `is_le` is the byte order of the host, `l` the one of the stored word.
unfoldable pub swin : Bool → Bool → ℕ → ℕ → ℕ
unfolding swap
swin is_le true n other = if is_le then other else swap n other
swin is_le false n other = if is_le then swap n other else other

-- What a host keeps in memory for the native word x.
unfoldable pub in_memory : Bool → ℕ → ℕ → List ℕ
in_memory is_le n x = if is_le then lsb n x else msb n x

pub record Sb : Type 0 where
  pub val : ℕ

unfoldable pub assign : Bool → Bool → ℕ → ℕ → Sb
unfolding swin
assign is_le l n other = record { val = swin is_le l n other }

unfoldable pub current : Bool → Bool → ℕ → Sb → ℕ
unfolding swin
current is_le l n sb = swin is_le l n sb.val

unfoldable pub same_value : Sb → Sb → Bool
same_value a b = a.val == b.val

pub record Bilateral : Type 0 where
  pub lsb_half : Sb
  pub msb_half : Sb

unfoldable pub assign_both : Bool → ℕ → ℕ → Bilateral
unfolding assign
assign_both is_le n other = record {
  lsb_half = assign is_le true n other;
  msb_half = assign is_le false n other;
}

unfoldable pub to_int : Bool → Bilateral → ℕ
to_int is_le both = if not is_le then both.msb_half.val else both.lsb_half.val

unfoldable pub bilateral_bytes : Bool → ℕ → Bilateral → List ℕ
unfolding in_memory
bilateral_bytes is_le n both =
    in_memory is_le n both.lsb_half.val ++ in_memory is_le n both.msb_half.val
