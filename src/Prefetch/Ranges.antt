-- ===== src/Prefetch/Ranges.antt =====
-- crates/orchestrator/src/prefetch/prefetcher.rs: the uncached byte ranges of a segment, and the
-- calls of readahead(2) over a range. In the ranges offsets and lengths are those of files, below
-- 2 ^ 63, where the casts between i64 and usize change nothing; the loop of `do_readahead` has the
-- wrap-around of i64.
pub mod Cover
-- `x & !(page_size - 1)`, for a page size that is a power of two.
use preload_ng.Prelude.{
  ℕ, zero, suc, ◌+◌, ◌-◌, ◌*◌, ◌/◌, ◌%◌, ◌^◌, min, max, ap, Bool, true, false, ◌||◌, not, Option,
  none, some, List, [], ◌∷◌, ◌++◌, map, ltb, leb, ◌==◌, if◌then◌else◌, length, set,
}

unfoldable pub align_down : ℕ → ℕ → ℕ
align_down page_size x = x - x % page_size

unfoldable pub align_up : ℕ → ℕ → ℕ
align_up page_size x = align_down page_size (x + page_size - 1)

-- `mincore(2)` over the mapping of the file, which the answer `none` says to be out of reach (the
-- file does not open, `mmap` or `mincore` fails): one flag for each page.
pub record Kernel : Type 0 where
  pub page_size : ℕ
  pub mincore : (aligned_offset aligned_length : ℕ) → Option (List Bool)

-- Where the loop stands: the start of the current run of uncached pages, and the ranges so far.
pub record Scan : Type 0 where
  pub run_start : Option ℕ
  pub ranges : List (ℕ × ℕ)

module _ (orig_start orig_end : ℕ) where
  -- A run of pages up to `stop`, cut to the range that was asked for.
  unfoldable pub flush : Scan → ℕ → Scan
  flush s stop = elim s.run_start [
    | none ↦ s
    | some start ↦
        let clamped_start = max start orig_start in
        let clamped_end = min stop orig_end in
        record {
          run_start = none;
          ranges =
              if ltb clamped_start clamped_end
              then s.ranges ++ (clamped_start, clamped_end - clamped_start) ∷ []
              else s.ranges;
        }
  ]

  -- The body of the loop over the pages.
  unfoldable pub visit_page : ℕ → Scan → ℕ → Bool → Scan
  visit_page page_size s page_start cached =
      if leb (page_start + page_size) orig_start || leb orig_end page_start
      then flush s page_start
      else if cached
      then flush s page_start
      else elim s.run_start [ none ↦ record s { run_start = some page_start } | some _ ↦ s ]

  unfoldable pub visit_pages : ℕ → Scan → ℕ → List Bool → Scan
  visit_pages page_size s page_start [] = s
  visit_pages page_size s page_start (cached ∷ pages) =
      visit_pages page_size (visit_page page_size s page_start cached) (page_start + page_size)
        pages

-- The loop and the flush of the last run.
unfoldable pub ranges_of_pages : ℕ → ℕ → ℕ → ℕ → List Bool → List (ℕ × ℕ)
ranges_of_pages page_size orig_start orig_end aligned_offset pages =
    (flush orig_start orig_end
      (visit_pages orig_start orig_end page_size (record { run_start = none; ranges = [] })
        aligned_offset pages)
      orig_end).ranges

unfoldable pub uncached_ranges : Kernel → ℕ → ℕ → List (ℕ × ℕ)
uncached_ranges kernel offset length =
    if length == 0
    then []
    else if kernel.page_size == 0
    then (offset, length) ∷ []
    else let aligned_offset = align_down kernel.page_size offset in
      let end = offset + length in
      let aligned_length = align_up kernel.page_size end - aligned_offset in
      if aligned_length == 0 then [] else elim (kernel.mincore aligned_offset aligned_length) [
        | none ↦ (offset, length) ∷ []
        | some pages ↦ ranges_of_pages kernel.page_size offset end aligned_offset pages
      ]

-- 128 * 1024, the bytes of one call.
abbrev pub chunk : ℕ
chunk = 128 * 1024

-- An i64 is its bit pattern, a number below 2 ^ 64: a cast to usize keeps it, sums and differences
-- wrap around, as they do in the release profile, which does not check for overflow, and the patterns
-- from 2 ^ 63 on are the negative numbers.
abbrev pub add_i64 : ℕ → ℕ → ℕ
add_i64 a b = (a + b) % 2 ^ 64

abbrev pub sub_i64 : ℕ → ℕ → ℕ
sub_i64 a b = (a + 2 ^ 64 - b) % 2 ^ 64

abbrev pub lt_i64 : ℕ → ℕ → Bool
lt_i64 a b = ltb (add_i64 a (2 ^ 63)) (add_i64 b (2 ^ 63))

-- The loop of `do_readahead`, on fuel: the calls `(off, count)` up to the first that fails, and
-- whether all succeeded.
unfoldable pub readahead_from : ℕ → (ℕ → ℕ → Bool) → ℕ → ℕ → List (ℕ × ℕ) × Bool
readahead_from zero readahead off end = ([], true)
readahead_from (suc fuel) readahead off end =
    let count = min (sub_i64 end off) chunk in
    let (calls, succeeded) = readahead_from fuel readahead (add_i64 off count) end in
    if lt_i64 off end
    then (if readahead off count
        then ((off, count) ∷ calls, succeeded)
        else ((off, count) ∷ [], false))
    else ([], true)

-- Each call takes at least a byte, and where `off` is less than `end` they are at most `length`
-- apart, so a round for each byte is enough.
unfoldable pub do_readahead : (ℕ → ℕ → Bool) → ℕ → ℕ → List (ℕ × ℕ) × Bool
do_readahead readahead offset length =
    readahead_from length readahead offset (add_i64 offset length)
