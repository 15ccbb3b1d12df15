-- ===== src/Observation/Admission/Prefixes.antt =====
-- `accept_path` follows the longest rule that the path starts with.
use preload_ng.Prelude.{
  ℕ, suc, ◌<◌, ◌≡◌, refl, Bool, true, not, Option, none, some, List, [], ◌∷◌, ◌++◌, arith,
  if◌then◌else◌, length, Bool,
}
use preload_ng.Domain.{utf8, to_str}
use preload_ng.Observation.Admission.{
  starts_with, strip_bang, best_length, better, best_from, accept_path,
}

-- The length of the rule's prefix if the path starts with it, and else 0.
unfoldable pub match_length : List ℕ → List ℕ → ℕ
match_length path rule =
    if starts_with path (strip_bang rule).1 then length (strip_bang rule).1 else 0

-- No rule of the list matches the path with `n` bytes or more.
unfoldable pub Below : List ℕ → ℕ → List (List ℕ) → Type 0
Below path n [] = Unit
Below path n (rule ∷ rules) = (match_length path rule < n) × Below path n rules

best_from-Below :
    (path : List ℕ) (best : Option (Bool × ℕ)) (n : ℕ) (rules : List (List ℕ))
    → best_length best < n
    → Below path n rules
    → best_length (best_from path best rules) < n
unfolding Below best_from match_length better
best_from-Below path best n [] h below = h
best_from-Below path best n (rule ∷ rules) h (first, below) =
    best_from-Below path (better path best rule) n rules (ground arith) below

best_from-unchanged :
    (path : List ℕ) (best : Option (Bool × ℕ)) (rules : List (List ℕ))
    → Below path (suc (best_length best)) rules
    → best_from path best rules ≡ best
unfolding Below best_from match_length better
best_from-unchanged path best [] below = refl
best_from-unchanged path best (rule ∷ rules) (first, below) =
    let same : better path best rule ≡ best = ground arith in
    rw same (best_from-unchanged path best rules below)

best_from-append :
    (path : List ℕ) (best : Option (Bool × ℕ)) (rules more : List (List ℕ))
    → best_from path best (rules ++ more) ≡ best_from path (best_from path best rules) more
unfolding best_from
best_from-append path best [] more = refl
best_from-append path best (rule ∷ rules) more =
    best_from-append path (better path best rule) rules more

better-longer :
    (path : List ℕ) (best : Option (Bool × ℕ)) (rule : List ℕ)
    → best_length best < match_length path rule
    → better path best rule ≡ some (not (strip_bang rule).0, match_length path rule)
unfolding better match_length
better-longer path best rule h = ground arith

-- A path of UTF-8 text that no rule matches with a byte or more is accepted.
pub accept_path-unmatched :
    (path : List ℕ) (rules : List (List ℕ))
    → Below path 1 rules
    → accept_path (utf8 path) rules ≡ true
unfolding accept_path to_str
accept_path-unmatched path rules below =
    rw (best_from-unchanged path none rules below, accept_path) refl

-- If a rule matches a path of UTF-8 text with at least one byte, no rule before it matches with as
-- many bytes and no rule after it matches with more, `accept_path` denies the path exactly if that
-- rule starts with `!`.
pub accept_path-longest :
    (path : List ℕ) (before : List (List ℕ)) (rule : List ℕ) (after : List (List ℕ))
    → 0 < match_length path rule
    → Below path (match_length path rule) before
    → Below path (suc (match_length path rule)) after
    → accept_path (utf8 path) (before ++ rule ∷ after) ≡ not (strip_bang rule).0
unfolding accept_path to_str best_from
accept_path-longest path before rule after some_byte earlier later =
    let shorter = best_from-Below path none (match_length path rule) before some_byte earlier in
    let chosen : better path (best_from path none before) rule
        ≡ some (not (strip_bang rule).0, match_length path rule) =
      better-longer path (best_from path none before) rule shorter in
    let kept =
      best_from-unchanged path (some (not (strip_bang rule).0, match_length path rule)) after
        later in
    ground (arith, best_from-append path none before (rule ∷ after), chosen, kept)
