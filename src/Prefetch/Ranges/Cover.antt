-- ===== src/Prefetch/Ranges/Cover.antt =====
-- The uncached ranges cover exactly the uncached bytes, and the calls of readahead exactly their range.
use preload_ng.Prelude.{
  ℕ, zero, suc, ◌+◌, ◌-◌, ◌*◌, ◌^◌, ◌≤◌, ◌<◌, min, max, ◌≡◌, refl, inl, inr, Bool, true, false,
  ◌&&◌, ◌||◌, not, Option, none, some, List, [], ◌∷◌, ◌++◌, arith, ltb, leb, Bool-cases,
  Option-cases, length,
}
use preload_ng.Prefetch.Ranges.{
  Kernel, uncached_ranges, Scan, flush, visit_page, visit_pages, ranges_of_pages, readahead_from,
  do_readahead, add_i64, sub_i64, lt_i64, chunk, align_down, align_up,
}

-- A byte of the half-open interval.
abbrev pub between : ℕ → ℕ → ℕ → Bool
between start end x = leb start x && ltb x end

-- A byte of one of the ranges, each given by its offset and its length.
unfoldable pub covers : List (ℕ × ℕ) → ℕ → Bool
covers [] x = false
covers (r ∷ ranges) x = let rest = covers ranges x in between r.0 (r.0 + r.1) x || rest

covers-append :
    (ranges more : List (ℕ × ℕ)) (x : ℕ)
    → covers (ranges ++ more) x ≡ (covers ranges x || covers more x)
unfolding covers
covers-append [] more x = refl
covers-append (r ∷ ranges) more x = ground (arith, covers-append ranges more x)

-- A byte of a page that is not cached.
unfoldable pub uncached : ℕ → ℕ → List Bool → ℕ → Bool
uncached page_size page_start [] x = false
uncached page_size page_start (cached ∷ pages) x =
    let rest = uncached page_size (page_start + page_size) pages x in
    (between page_start (page_start + page_size) x && not cached) || rest

-- A byte of the current run, which goes on to `stop`.
in_run : Option ℕ → ℕ → ℕ → Bool
in_run none stop x = false
in_run (some start) stop x = between start stop x

module _ (orig_start orig_end : ℕ) where
  covers-flush :
      (s : Scan) (stop x : ℕ)
      → covers (flush orig_start orig_end s stop).ranges x
        ≡ (covers s.ranges x || (between orig_start orig_end x && in_run s.run_start stop x))
  unfolding flush covers in_run
  covers-flush s stop x = elim (Option-cases s.run_start) [
    | inl e ↦ ground arith
    | inr (start, e) ↦ ground (
      arith,
      covers-append s.ranges ((max start orig_start, min stop orig_end - max start orig_start) ∷ [])
          x,
    )
  ]

  flush-run_start : (s : Scan) (stop : ℕ) → (flush orig_start orig_end s stop).run_start ≡ none
  unfolding flush
  flush-run_start s stop = ground arith

  -- A byte of the range that the scan up to `stop` has found uncached.
  abbrev seen : Scan → ℕ → ℕ → Bool
  seen s stop x = covers s.ranges x || (between orig_start orig_end x && in_run s.run_start stop x)

  -- The current run starts at or before `stop`.
  abbrev Started : Scan → ℕ → Type 0
  Started s stop = (start : ℕ) → s.run_start ≡ some start → start ≤ stop

  seen-visit_page :
      (page_size : ℕ) (s : Scan) (page_start : ℕ) (cached : Bool) (x : ℕ)
      → Started s page_start
      → seen
          (visit_page orig_start orig_end page_size s page_start cached)
          (page_start + page_size)
          x
        ≡ (seen s page_start x
            || (between orig_start orig_end x
                && (between page_start (page_start + page_size) x && not cached)))
  unfolding visit_page in_run
  seen-visit_page page_size s page_start cached x started = elim (Option-cases s.run_start) [
    | inl e ↦ ground (arith, e, covers-flush s page_start x, flush-run_start s page_start)
    | inr (start, e) ↦
        let before = started start e in
        ground (arith, e, before, covers-flush s page_start x, flush-run_start s page_start)
  ]

  Started-visit_page :
      (page_size : ℕ) (s : Scan) (page_start : ℕ) (cached : Bool)
      → Started s page_start
      → Started
          (visit_page orig_start orig_end page_size s page_start cached)
          (page_start + page_size)
  unfolding visit_page
  Started-visit_page page_size s page_start cached started start h =
      ground (arith, started start, flush-run_start s page_start)

  covers-visit_pages :
      (page_size : ℕ) (s : Scan) (page_start : ℕ) (pages : List Bool) (x : ℕ)
      → Started s page_start
      → orig_end ≤ page_start + length pages * page_size
      → covers
          (flush orig_start orig_end
            (visit_pages orig_start orig_end page_size s page_start pages)
            orig_end).ranges
          x
        ≡ (seen s page_start x
            || (between orig_start orig_end x && uncached page_size page_start pages x))
  unfolding visit_pages uncached in_run
  covers-visit_pages page_size s page_start [] x started enough = elim (Option-cases s.run_start) [
    | inl e ↦ ground (arith, covers-flush s orig_end x, e)
    | inr (start, e) ↦ ground (arith, covers-flush s orig_end x, e, enough)
  ]
  covers-visit_pages page_size s page_start (cached ∷ pages) x started enough = ground (
    arith,
    covers-visit_pages page_size (visit_page orig_start orig_end page_size s page_start cached)
        (page_start + page_size) pages x (Started-visit_page page_size s page_start cached started)
        (omega (arith, enough)),
    seen-visit_page page_size s page_start cached x started,
  )

-- If the flags reach to the end of the range, a byte is in one of the ranges exactly if it is in the
-- range that was asked for and its page is not cached.
pub ranges_of_pages-covers :
    (page_size orig_start orig_end aligned_offset : ℕ) (pages : List Bool) (x : ℕ)
    → orig_end ≤ aligned_offset + length pages * page_size
    → covers (ranges_of_pages page_size orig_start orig_end aligned_offset pages) x
      ≡ (between orig_start orig_end x && uncached page_size aligned_offset pages x)
unfolding ranges_of_pages covers in_run
ranges_of_pages-covers page_size orig_start orig_end aligned_offset pages x enough = ground (
  arith,
  covers-visit_pages orig_start orig_end page_size (record { run_start = none; ranges = [] })
      aligned_offset pages x (λ start h. absurd (ground arith)) enough,
)

-- Aligning up ends at or behind the byte, aligning down at or before it.
align_up-le : (page_size x : ℕ) → 0 < page_size → x ≤ align_up page_size x
unfolding align_up align_down
align_up-le page_size x h = omega arith

align_down-le : (page_size x : ℕ) → align_down page_size x ≤ x
unfolding align_down
align_down-le page_size x = omega arith

-- The byte is not in the page cache, as far as the kernel can tell.
unfoldable pub is_missing : Kernel → ℕ → ℕ → ℕ → Bool
is_missing kernel offset len x =
    let aligned_offset = align_down kernel.page_size offset in
    elim (kernel.mincore aligned_offset
      (align_up kernel.page_size (offset + len) - aligned_offset)) [
        | none ↦ true
        | some pages ↦ uncached kernel.page_size aligned_offset pages x
      ]

-- If the kernel has pages of some size and gives a flag for each page that it is asked about, a byte
-- is in one of the ranges of `uncached_ranges` exactly if it is in the range that was asked for and
-- it is not known to be cached.
pub uncached_ranges-covers :
    (kernel : Kernel) (offset len x : ℕ)
    → 0 < kernel.page_size
    → ((a l : ℕ) (pages : List Bool)
        → kernel.mincore a l ≡ some pages
        → l ≤ length pages * kernel.page_size)
    → covers (uncached_ranges kernel offset len) x
      ≡ (between offset (offset + len) x && is_missing kernel offset len x)
unfolding uncached_ranges is_missing covers
uncached_ranges-covers kernel offset len x positive flags =
    let down = align_down-le kernel.page_size offset in
    let up = align_up-le kernel.page_size (offset + len) positive in
    let a = align_down kernel.page_size offset in
    let l = align_up kernel.page_size (offset + len) - a in
    elim (Option-cases (kernel.mincore a l)) [
      | inl unknown ↦ ground (arith, unknown, down, up, positive)
      | inr (pages, known) ↦
          let enough = flags a l pages known in
          let covered =
            ranges_of_pages-covers kernel.page_size offset (offset + len) a pages x
              (omega (arith, enough, up, down)) in
          ground (arith, known, covered, down, up, positive)
    ]

-- Below 2 ^ 63 the comparison and the difference are those of numbers.
lt_i64-ltb : (a b : ℕ) → a < 2 ^ 63 → b < 2 ^ 63 → lt_i64 a b ≡ ltb a b
lt_i64-ltb a b ha hb = ground (arith, ha, hb)

sub_i64-sub : (a b : ℕ) → a < 2 ^ 63 → b ≤ a → sub_i64 a b ≡ a - b
sub_i64-sub a b ha hb = omega (arith, ha, hb)

readahead_from-covers :
    (fuel : ℕ) (readahead : ℕ → ℕ → Bool) (off end x : ℕ)
    → off < 2 ^ 63
    → end < 2 ^ 63
    → end ≤ off + fuel
    → (readahead_from fuel readahead off end).1 ≡ true
    → covers (readahead_from fuel readahead off end).0 x ≡ between off end x
unfolding readahead_from covers
readahead_from-covers zero readahead off end x low high enough done = ground arith
readahead_from-covers (suc fuel) readahead off end x low high enough done =
    elim (Bool-cases (ltb off end)) [
      | inl more ↦
          let signed = lt_i64-ltb off end low high in
          let left = sub_i64-sub end off high (ground (arith, more)) in
          let count = min (sub_i64 end off) chunk in
          let next : add_i64 off count ≡ off + count = omega (arith, left, low, high) in
          elim (Bool-cases (readahead off count)) [
            | inl read ↦
                let ih =
                  readahead_from-covers fuel readahead (add_i64 off count) end x
                    (ground (arith, next, left, more, high)) high
                    (ground (arith, next, left, more, enough))
                    (ground (arith, signed, more, read, done)) in
                ground (arith, ih, next, left, signed, more, read)
            | inr failed ↦ absurd (ground (arith, signed, more, failed, done))
          ]
      | inr finished ↦ ground (arith, lt_i64-ltb off end low high, finished)
    ]

-- Where the loop begins at or behind the end, as signed numbers, it makes no call.
readahead_from-none :
    (fuel : ℕ) (readahead : ℕ → ℕ → Bool) (off end : ℕ)
    → lt_i64 off end ≡ false
    → readahead_from fuel readahead off end ≡ ([], true)
unfolding readahead_from
readahead_from-none zero readahead off end h = refl
readahead_from-none (suc fuel) readahead off end h = rw h refl

-- If every call of readahead succeeds, for an offset and a length that are not negative, the calls of
-- `do_readahead` cover each byte of the range and no other byte, if the end of the range is below
-- 2 ^ 63; else the sum wraps to a negative number, and they cover no byte.
pub do_readahead-covers :
    (readahead : ℕ → ℕ → Bool) (offset length x : ℕ)
    → offset < 2 ^ 63
    → length < 2 ^ 63
    → (do_readahead readahead offset length).1 ≡ true
    → covers (do_readahead readahead offset length).0 x
      ≡ (ltb (offset + length) (2 ^ 63) && between offset (offset + length) x)
unfolding do_readahead covers
do_readahead-covers readahead offset length x low short done =
    elim (Bool-cases (ltb (offset + length) (2 ^ 63))) [
      | inl fits ↦
          let sum : add_i64 offset length ≡ offset + length = ground (arith, fits) in
          let covered =
            readahead_from-covers length readahead offset (add_i64 offset length) x low
              (ground (arith, sum, fits)) (omega (arith, sum)) done in
          ground (arith, covered, sum, fits)
      | inr over ↦
          let negative : lt_i64 offset (add_i64 offset length) ≡ false =
            ground (arith, over, low, short) in
          ground (
            arith,
            over,
            readahead_from-none length readahead offset (add_i64 offset length) negative,
          )
    ]
