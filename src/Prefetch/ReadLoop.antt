-- ===== src/Prefetch/ReadLoop.antt =====
-- crates/orchestrator/src/prefetch/prefetcher.rs: the loop of `ReadPrefetcher::readahead`.
use preload_ng.Prelude.{
  ℕ, zero, suc, ◌+◌, ◌-◌, ◌≤◌, min, ◌≡◌, ◌⊎◌, inl, inr, Option, none, some, arith, ◌==◌,
  if◌then◌else◌, Bool-cases, length,
}
use preload_ng.Prefetch.Ranges.{chunk}

-- The bytes that the loop reads from a position on, on fuel; `none` is an error of a read. `read`
-- gives the number of bytes that it read.
unfoldable pub read_from : ℕ → (ℕ → ℕ → Option ℕ) → ℕ → ℕ → Option ℕ
read_from zero read pos remaining = some 0
read_from (suc fuel) read pos remaining =
    if remaining == 0 then some 0 else elim (read pos (min remaining chunk)) [
      | none ↦ none
      | some n ↦
          let rest = read_from fuel read (pos + n) (remaining - n) in
          if n == 0 then some 0 else elim rest [ none ↦ none | some more ↦ some (n + more) ]
    ]

-- Each round but the last reads at least a byte, so a round for each byte is enough.
unfoldable pub readahead : (ℕ → ℕ → Option ℕ) → ℕ → ℕ → Option ℕ
readahead read offset length = read_from length read offset length

-- `Read::read` of a file with this size: no read fails, each gives at most what was asked for and
-- what is there, and nothing only if nothing was asked for or nothing is left.
pub record IsFile (size : ℕ) (read : ℕ → ℕ → Option ℕ) : Type 0 where
  pub count : ℕ → ℕ → ℕ
  pub returned : (pos asked : ℕ) → read pos asked ≡ some (count pos asked)
  pub bounded : (pos asked : ℕ) → count pos asked ≤ min asked (size - pos)
  pub progress : (pos asked : ℕ) → (count pos asked ≡ 0) → (asked ≡ 0) ⊎ (size ≤ pos)

read_from-all :
    (size : ℕ) (read : ℕ → ℕ → Option ℕ) (fuel pos remaining : ℕ)
    → IsFile size read
    → remaining ≤ fuel
    → read_from fuel read pos remaining ≡ some (min remaining (size - pos))
unfolding read_from
read_from-all size read zero pos remaining file enough = ground (arith, enough)
read_from-all size read (suc fuel) pos remaining file enough =
    let asked = min remaining chunk in
    let n = file.count pos asked in
    let bound = file.bounded pos asked in
    elim (Bool-cases (n == 0)) [
      | inl nothing ↦
          ground (arith, file.returned pos asked, nothing, bound, file.progress pos asked)
      | inr something ↦
          let ih =
            read_from-all size read fuel (pos + n) (remaining - n) file
              (ground (arith, something, bound, enough)) in
          ground (arith, file.returned pos asked, something, bound, ih)
    ]

-- From a file whose reads do not fail `readahead` reads the whole range, as far as the file goes,
-- however few bytes each read gives.
pub readahead-all :
    (size : ℕ) (read : ℕ → ℕ → Option ℕ) (offset length : ℕ)
    → IsFile size read
    → readahead read offset length ≡ some (min length (size - offset))
unfolding readahead
readahead-all size read offset length file =
    read_from-all size read length offset length file (omega arith)
