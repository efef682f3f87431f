-- ===== src/Base/Bytes.antt =====
-- Byte slices as lists of numbers: encoding/binary's big-endian accessors, `copy` into a fixed
-- array, and reads from a connection with io.ReadFull.
use Prim.Native.Nat.{ℕ, zero, suc, ◌+◌, ◌-◌, ◌*◌, ◌/◌, ◌%◌, ◌≤◌, ◌<◌}
use mathlib.Core.Path.{◌≡◌, refl, ap, ◌∙◌}
use mathlib.Core.List.{List, [], ◌∷◌, ◌++◌}
use mathlib.Core.Option.{Option, none, some}
use native.Mathlib.Omega.{arith}
use sbnet.Base.Tests.{ltb, if◌then◌else◌, le→ltb}
use sbnet.Base.Lists.{
  length, take, drop, get_or, replicate, length-append, take-append, drop-append,
}

abbrev pub Bytes : Type 0
Bytes = List ℕ

abbrev pub IsByte : ℕ → Type 0
IsByte b = b < 256

-- The bytes of `binary.BigEndian.PutUint16(_, uint16(v))` and of `PutUint32`.
abbrev pub put_u16 : ℕ → Bytes
put_u16 v = (v / 256 % 256) ∷ (v % 256) ∷ []

abbrev pub put_u32 : ℕ → Bytes
put_u32 v = (v / 16777216 % 256) ∷ (v / 65536 % 256) ∷ (v / 256 % 256) ∷ (v % 256) ∷ []

-- `binary.BigEndian.Uint16(b[i:i+2])` and `Uint32(b[i:i+4])`, within bounds.
abbrev pub u16_at : Bytes → ℕ → ℕ
u16_at b i = get_or b i 0 * 256 + get_or b (i + 1) 0

abbrev pub u32_at : Bytes → ℕ → ℕ
u32_at b i =
    get_or b i 0 * 16777216
    + get_or b (i + 1) 0 * 65536
    + get_or b (i + 2) 0 * 256
    + get_or b (i + 3) 0

-- The slice `b[lo:hi]`, within bounds.
abbrev pub slice : Bytes → ℕ → ℕ → Bytes
slice b lo hi = take (hi - lo) (drop lo b)

-- `copy(dst[:], src)`: the first bytes of `dst` are overwritten, as far as both reach.
abbrev pub copy_into : Bytes → Bytes → Bytes
copy_into [] src = []
copy_into (d ∷ dst) [] = d ∷ dst
copy_into (d ∷ dst) (s ∷ src) = s ∷ copy_into dst src

-- `copy(dst[at:], src)`.
abbrev pub copy_at : ℕ → Bytes → Bytes → Bytes
copy_at zero dst src = copy_into dst src
copy_at (suc n) [] src = []
copy_at (suc n) (d ∷ dst) src = d ∷ copy_at n dst src

pub length-copy_into : (dst src : Bytes) → length (copy_into dst src) ≡ length dst
length-copy_into [] src = refl
length-copy_into (d ∷ dst) [] = refl
length-copy_into (d ∷ dst) (s ∷ src) = ap suc (length-copy_into dst src)

-- Into a zeroed array the bytes are copied, and zeros follow.
pub copy_into-replicate :
    (n : ℕ) (src : Bytes)
    → length src ≤ n
    → copy_into (replicate n 0) src ≡ src ++ replicate (n - length src) 0
copy_into-replicate zero [] h = refl
copy_into-replicate zero (s ∷ src) h = absurd (omega arith)
copy_into-replicate (suc n) [] h = ground arith
copy_into-replicate (suc n) (s ∷ src) h = ground (arith, copy_into-replicate n src)

pub take-copy_into :
    (dst src : Bytes) → length src ≤ length dst → take (length src) (copy_into dst src) ≡ src
take-copy_into dst [] h = refl
take-copy_into [] (s ∷ src) h = absurd (omega arith)
take-copy_into (d ∷ dst) (s ∷ src) h = ap (λ t. s ∷ t) (take-copy_into dst src (omega arith))

-- The random bytes that `rand.Read` puts into a slice of `n` bytes, from the stream `noise`.
abbrev pub rand_bytes : (ℕ → ℕ) → ℕ → Bytes
rand_bytes noise zero = []
rand_bytes noise (suc n) = noise n ∷ rand_bytes noise n

pub length-rand_bytes : (noise : ℕ → ℕ) (n : ℕ) → length (rand_bytes noise n) ≡ n
length-rand_bytes noise zero = refl
length-rand_bytes noise (suc n) = ap suc (length-rand_bytes noise n)

-- `io.ReadFull(r, buf)` with `n` bytes asked for, on a reader that ends after the bytes `s`.
unfoldable pub read_full : ℕ → Bytes → Option (Bytes × Bytes)
read_full n s = if ltb (length s) n then none else some (take n s, drop n s)

pub read_full-append :
    (n : ℕ) (xs ys : Bytes) → length xs ≡ n → read_full n (xs ++ ys) ≡ some (xs, ys)
unfolding read_full
read_full-append n xs ys h = rw (
  le→ltb (length (xs ++ ys)) n (omega (arith, length-append xs ys)),
  take-append n xs ys h,
  drop-append n xs ys h,
)

-- Writes one behind the other.
pub copy_at-copy_into :
    (dst first second : Bytes)
    → copy_at (length first) (copy_into dst first) second ≡ copy_into dst (first ++ second)
copy_at-copy_into [] [] second = refl
copy_at-copy_into [] (x ∷ first) second = refl
copy_at-copy_into (d ∷ dst) [] second = refl
copy_at-copy_into (d ∷ dst) (x ∷ first) second =
    ap (λ t. x ∷ t) (copy_at-copy_into dst first second)

-- Reads within a prefix.
pub get_or-take : (n i d : ℕ) (b : Bytes) → i < n → get_or (take n b) i d ≡ get_or b i d
get_or-take zero i d b h = absurd (omega arith)
get_or-take (suc n) i d [] h = refl
get_or-take (suc n) zero d (x ∷ b) h = refl
get_or-take (suc n) (suc i) d (x ∷ b) h = get_or-take n i d b (omega arith)

take-take : (k n : ℕ) (b : Bytes) → k ≤ n → take k (take n b) ≡ take k b
take-take zero n b h = refl
take-take (suc k) zero b h = absurd (omega arith)
take-take (suc k) (suc n) [] h = refl
take-take (suc k) (suc n) (x ∷ b) h = ap (λ t. x ∷ t) (take-take k n b (omega arith))

take-drop-take :
    (k lo n : ℕ) (b : Bytes) → lo + k ≤ n → take k (drop lo (take n b)) ≡ take k (drop lo b)
take-drop-take k zero n b h = take-take k n b (omega arith)
take-drop-take k (suc lo) zero b h = absurd (omega arith)
take-drop-take k (suc lo) (suc n) [] h = refl
take-drop-take k (suc lo) (suc n) (x ∷ b) h = take-drop-take k lo n b (omega arith)

pub slice-take :
    (lo hi n : ℕ) (b : Bytes) → lo ≤ hi → hi ≤ n → slice (take n b) lo hi ≡ slice b lo hi
slice-take lo hi n b h k = take-drop-take (hi - lo) lo n b (omega arith)

-- Reading a middle part back.
pub slice-append :
    (xs ys zs : Bytes) (lo hi : ℕ)
    → length xs ≡ lo
    → lo + length ys ≡ hi
    → slice (xs ++ (ys ++ zs)) lo hi ≡ ys
slice-append xs ys zs lo hi h k =
    ap (λ t. take (hi - lo) t) (drop-append lo xs (ys ++ zs) h)
    ∙ take-append (hi - lo) ys zs (omega arith)
