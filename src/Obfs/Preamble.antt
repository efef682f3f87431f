-- ===== src/Obfs/Preamble.antt =====
-- A preamble of common/obfs.go at its reader.
use sbnet.Base.{
  ℕ, zero, suc, ◌%◌, ◌≤◌, ◌<◌, ◌≡◌, refl, [], ◌∷◌, ◌++◌, arith, length, drop, length-drop,
  drop-append,
}
use sbnet.Base.Bytes.{Bytes, rand_bytes, length-rand_bytes}
use sbnet.Obfs.{preamble_size, write_obfs_preamble, read_obfs_preamble}

drop_part : (n : ℕ) (xs ys : Bytes) → n ≤ length xs → drop n (xs ++ ys) ≡ drop n xs ++ ys
drop_part zero xs ys h = refl
drop_part (suc n) [] ys h = absurd (omega arith)
drop_part (suc n) (x ∷ xs) ys h = drop_part n xs ys (omega arith)

-- If the random byte is less than 224, the reader of a preamble is left with exactly what followed
-- it. From 224 on the size does not fit in its byte, and the reader is left with 256 of the
-- preamble's random bytes in front of what followed.
pub preamble_read :
    (b : ℕ) (noise : ℕ → ℕ) (rest : Bytes)
    → b < 256
    → (b < 224 → read_obfs_preamble (write_obfs_preamble b noise ++ rest) ≡ rest)
      × (224 ≤ b
          → (junk : Bytes) × (length junk ≡ 256)
            × (read_obfs_preamble (write_obfs_preamble b noise ++ rest) ≡ junk ++ rest))
unfolding write_obfs_preamble read_obfs_preamble
preamble_read b noise rest h =
    let n = length-rand_bytes noise (preamble_size b) in
    (
      (λ small.
          drop-append (preamble_size b % 256) (rand_bytes noise (preamble_size b)) rest
            (omega (arith, n))),
      (λ large. (
        drop (preamble_size b % 256) (rand_bytes noise (preamble_size b)),
        omega (arith, n, length-drop (preamble_size b % 256) (rand_bytes noise (preamble_size b))),
        drop_part (preamble_size b % 256) (rand_bytes noise (preamble_size b)) rest
            (omega (arith, n)),
      )),
    )
