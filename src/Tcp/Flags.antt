-- ===== src/Tcp/Flags.antt =====
-- The flags of a segment (src/tcp.rs).
use microps_rs.Base.{ℕ, Bool, not, bit_and, ◌==◌}

abbrev pub fin : ℕ
fin = 0x01

abbrev pub syn : ℕ
syn = 0x02

abbrev pub rst : ℕ
rst = 0x04

abbrev pub psh : ℕ
psh = 0x08

abbrev pub ack : ℕ
ack = 0x10

unfoldable pub flag_isset : ℕ → ℕ → Bool
flag_isset flg mask = not (bit_and (bit_and flg 0x3f) mask == 0)
