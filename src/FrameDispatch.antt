-- ===== src/FrameDispatch.antt =====
-- packages/pmacc/include/spmacc/particles/algorithms/FrameDispatch.hpp: the frame-count kernel, the
-- host's inclusive scan, and the two policies that size a grid.
pub mod Scan
use spearhed.Base.{
  ℕ, zero, suc, ◌+◌, ◌-◌, ◌%◌, Box, update, u32, leb, ltb, List, length, if◌then◌else◌,
}

-- CountFramesKernel: block `block` writes the number of frames of its region. `frames r` lists the
-- frame addresses that an iteration over region `r`'s frame list visits.
unfoldable pub count_frames : {A : Type 0} → Box (List A) → ℕ → ℕ → Box ℕ → Box ℕ
count_frames frames num_regions block frames_per_region =
    if leb num_regions block
    then frames_per_region
    else update frames_per_region block (length (frames block))

-- `for(i = 1; i < size; ++i) data[i] += data[i - 1];` in uint32_t, by the rounds that are left.
unfoldable pub scan_loop : ℕ → ℕ → Box ℕ → Box ℕ
scan_loop zero i buf = buf
scan_loop (suc rounds) i buf = scan_loop rounds (suc i) (update buf i ((buf i + buf (i - 1)) % u32))

-- inclusiveScanHost: the scanned buffer and the value that is returned.
unfoldable pub inclusive_scan_host : Box ℕ → ℕ → Box ℕ × ℕ
unfolding scan_loop
inclusive_scan_host buf zero = (buf, 0)
inclusive_scan_host buf (suc n) = let scanned = scan_loop n 1 buf in (scanned, scanned n)

pub data Grid : Type 0 where
  one_block_per_frame : Grid
  fixed_grid : ℕ → Grid

-- numBlocks of the two policies.
unfoldable pub num_blocks : Grid → ℕ → ℕ
num_blocks one_block_per_frame total = total
num_blocks (fixed_grid blocks) total = if ltb blocks total then blocks else total
