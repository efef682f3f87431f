-- ===== src/Cell/Pad.antt =====
-- The padding of common/cell.go: the size of a frame on the wire.
use sbnet.Base.{ℕ, zero, suc, ◌+◌, ◌-◌, ◌%◌, ◌≤◌, ◌<◌, arith, get_or}
use sbnet.Cell.{pad_buckets, first_fit, pick_pad_target}

-- From the first bucket that fits on, every bucket fits.
fits_from : (m i : ℕ) → first_fit m pad_buckets 0 ≤ i → i < 6 → m ≤ get_or pad_buckets i 0
unfolding first_fit
fits_from m zero h k = ground arith
fits_from m (suc zero) h k = ground arith
fits_from m (suc (suc zero)) h k = ground arith
fits_from m (suc (suc (suc zero))) h k = ground arith
fits_from m (suc (suc (suc (suc zero)))) h k = ground arith
fits_from m (suc (suc (suc (suc (suc zero))))) h k = ground arith
fits_from m (suc (suc (suc (suc (suc (suc i)))))) h k = absurd (omega arith)

first_fit-le : (m : ℕ) → m ≤ 512 → first_fit m pad_buckets 0 ≤ 2
unfolding first_fit
first_fit-le m h = ground arith

bucket_bounds : (i : ℕ) → i < 6 → (128 ≤ get_or pad_buckets i 0) × (get_or pad_buckets i 0 ≤ 1280)
bucket_bounds zero h = omega arith
bucket_bounds (suc zero) h = omega arith
bucket_bounds (suc (suc zero)) h = omega arith
bucket_bounds (suc (suc (suc zero))) h = omega arith
bucket_bounds (suc (suc (suc (suc zero)))) h = omega arith
bucket_bounds (suc (suc (suc (suc (suc zero))))) h = omega arith
bucket_bounds (suc (suc (suc (suc (suc (suc i)))))) h = absurd (omega arith)

-- Any index from the first fit on gives a bucket that fits.
bucket_at :
    (m i : ℕ)
    → first_fit m pad_buckets 0 ≤ i
    → i < 6
    → (m ≤ get_or pad_buckets i 0)
      × (128 ≤ get_or pad_buckets i 0)
      × (get_or pad_buckets i 0 ≤ 1280)
bucket_at m i h k = (fits_from m i h k, (bucket_bounds i k).0, (bucket_bounds i k).1)

random_index : (f r : ℕ) → f ≤ 2 → f + r % (6 - f) < 6
random_index zero r h = omega arith
random_index (suc zero) r h = omega arith
random_index (suc (suc zero)) r h = omega arith
random_index (suc (suc (suc f))) r h = absurd (omega arith)

-- A frame body for at most 512 meaningful bytes is a bucket that holds them.
pub pick_pad_target_bounds :
    (r m : ℕ)
    → m ≤ 512
    → (m ≤ pick_pad_target r m) × (128 ≤ pick_pad_target r m) × (pick_pad_target r m ≤ 1280)
unfolding pick_pad_target
pick_pad_target_bounds r m h = ground (
  arith,
  first_fit-le m h,
  random_index (first_fit m pad_buckets 0) r,
  bucket_at m (first_fit m pad_buckets 0 + r % (6 - first_fit m pad_buckets 0)),
)
