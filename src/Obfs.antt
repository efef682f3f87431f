-- ===== src/Obfs.antt =====
-- common/obfs.go: the preamble of random bytes that each side of a connection writes and skips.
pub mod Preamble
use sbnet.Base.{ℕ, zero, suc, ◌+◌, ◌%◌, List, [], ◌∷◌, drop}
use sbnet.Base.Bytes.{Bytes, rand_bytes}

abbrev pub obfs_min_preamble : ℕ
obfs_min_preamble = 32

abbrev pub obfs_max_preamble : ℕ
obfs_max_preamble = 512

-- How many random bytes follow, for the random byte `b`. The difference of the limits is 480.
abbrev pub preamble_size : ℕ → ℕ
preamble_size b = b % 480 + obfs_min_preamble

-- The size goes out as one byte.
unfoldable pub write_obfs_preamble : ℕ → (ℕ → ℕ) → Bytes
write_obfs_preamble b noise = (preamble_size b % 256) ∷ rand_bytes noise (preamble_size b)

-- What is left to read. Errors are ignored, and the byte stays zero if there is none to read.
unfoldable pub read_obfs_preamble : Bytes → Bytes
read_obfs_preamble [] = []
read_obfs_preamble (n ∷ s) = drop n s
