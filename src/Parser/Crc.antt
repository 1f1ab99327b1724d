-- ===== src/Parser/Crc.antt =====
-- src/io/parser.cpp: `crc64`, over the table of src/utils/util.cpp.
use Prim.Native.Nat.{bit_xor}
use ftrl_online_pslite.Prelude.{ℕ, ◌+◌, ◌*◌, ◌/◌, ◌%◌, ◌^◌, [], ◌∷◌}
use ftrl_online_pslite.Bytes.{Bytes}
use ftrl_online_pslite.StringUtil.{c_str}

-- The byte of `crc` from bit `8 * i` on.
abbrev byte_of : ℕ → ℕ → ℕ
byte_of crc i = crc / 2 ^ (8 * i) % 256

-- `crc = table[0][(crc ^ *buffer++) & 0xff] ^ (crc >> 8)`. The sign of a `char` does not matter: the
-- mask leaves the low byte.
abbrev crc_byte : (ℕ → ℕ → ℕ) → ℕ → ℕ → ℕ
crc_byte table crc b = bit_xor (table 0 (bit_xor crc b % 256)) (crc / 256)

unfoldable pub crc_bytes : (ℕ → ℕ → ℕ) → ℕ → Bytes → ℕ
crc_bytes table crc [] = crc
crc_bytes table crc (b ∷ bs) = crc_bytes table (crc_byte table crc b) bs

-- `*(uint64_t*)buffer`, little-endian
abbrev word_of : (b0 b1 b2 b3 b4 b5 b6 b7 : ℕ) → ℕ
word_of b0 b1 b2 b3 b4 b5 b6 b7 =
    b0
    + b1 * 2 ^ 8
    + b2 * 2 ^ 16
    + b3 * 2 ^ 24
    + b4 * 2 ^ 32
    + b5 * 2 ^ 40
    + b6 * 2 ^ 48
    + b7 * 2 ^ 56

abbrev crc_word : (ℕ → ℕ → ℕ) → ℕ → ℕ
crc_word table crc =
    bit_xor
      (bit_xor
        (bit_xor
          (bit_xor
            (bit_xor
              (bit_xor (bit_xor (table 7 (byte_of crc 0)) (table 6 (byte_of crc 1)))
                (table 5 (byte_of crc 2)))
              (table 4 (byte_of crc 3)))
            (table 3 (byte_of crc 4)))
          (table 2 (byte_of crc 5)))
        (table 1 (byte_of crc 6)))
      (table 0 (crc / 2 ^ 56))

-- The two loops: eight bytes at a time, then the rest.
unfoldable pub crc_loop : (ℕ → ℕ → ℕ) → ℕ → Bytes → ℕ
unfolding crc_bytes
crc_loop table crc (b0 ∷ b1 ∷ b2 ∷ b3 ∷ b4 ∷ b5 ∷ b6 ∷ b7 ∷ rest) =
    crc_loop table (crc_word table (bit_xor crc (word_of b0 b1 b2 b3 b4 b5 b6 b7))) rest
crc_loop table crc bs = crc_bytes table crc bs

unfoldable pub crc64 : (ℕ → ℕ → ℕ) → Bytes → ℕ
unfolding crc_loop c_str
crc64 table buffer = crc_loop table 0 (c_str buffer)
