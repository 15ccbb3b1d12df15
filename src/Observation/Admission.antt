-- ===== src/Observation/Admission.antt =====
-- crates/orchestrator/src/observation/admission.rs: which exes and maps enter the model.
pub mod Prefixes
pub mod Verdict
use preload_ng.Prelude.{
  ℕ, zero, ◌+◌, ◌-◌, ◌/◌, ◌%◌, ◌^◌, min, ap, Bool, true, false, ◌&&◌, ◌||◌, not, Option, none, some,
  List, [], ◌∷◌, map, ltb, ◌==◌, if◌then◌else◌, length, keep,
}
use preload_ng.Domain.{FilePath, to_str}
use preload_ng.Observation.Event.{CandidateExe}

pub data Completeness : Type 0 where
  full partial : Completeness

pub data RejectReason : Type 0 where
  too_small exe_prefix_denied map_prefix_denied missing_maps : RejectReason

pub data AdmissionDecision : Type 0 where
  accept : Completeness → AdmissionDecision
  reject : RejectReason → AdmissionDecision
  defer : AdmissionDecision

-- The moka crate's cache with a time to live. A value of `Cache` is the cache together with the
-- moment at which it is asked. A lookup and the counting of the entries change its bookkeeping.
pub record RejectCache : Type 1 where
  pub Cache : Type 0
  -- a cache with this capacity and this time to live in seconds
  pub build : ℕ → ℕ → Cache
  pub get : Cache → FilePath → Option RejectReason × Cache
  pub insert : Cache → FilePath → RejectReason → Cache
  pub invalidate : Cache → FilePath → Cache
  pub entry_count : Cache → ℕ × Cache

-- The fields of the configuration that the policy reads.
pub record PolicyConfig : Type 0 where
  pub minsize : ℕ
  pub exeprefix : List (List ℕ)
  pub mapprefix : List (List ℕ)
  pub policy_cache_ttl : ℕ
  pub policy_cache_capacity : ℕ

pub record AdmissionPolicyStats : Type 0 where
  pub cache_enabled : Bool
  pub cache_hits : ℕ
  pub cache_misses : ℕ
  pub cache_inserts : ℕ
  pub cache_invalidations : ℕ
  pub cache_entries : ℕ
  pub cache_capacity : ℕ
  pub cache_ttl : ℕ

-- `fetch_add(1)` of an `AtomicU64`.
abbrev pub fetch_add_one : ℕ → ℕ
fetch_add_one n = (n + 1) % 2 ^ 64

-- `str::starts_with`.
unfoldable pub starts_with : List ℕ → List ℕ → Bool
starts_with s [] = true
starts_with [] (p ∷ ps) = false
starts_with (c ∷ s) (p ∷ ps) = let rest = starts_with s ps in (c == p) && rest

-- `prefix.strip_prefix('!')`, where `!` is the byte 33: whether the rule denies, and its prefix.
unfoldable pub strip_bang : List ℕ → Bool × List ℕ
strip_bang [] = (false, [])
strip_bang (c ∷ p) = if c == 33 then (true, p) else (false, c ∷ p)

abbrev pub best_length : Option (Bool × ℕ) → ℕ
best_length none = 0
best_length (some b) = b.1

-- The body of the loop over the prefixes.
unfoldable pub better : List ℕ → Option (Bool × ℕ) → List ℕ → Option (Bool × ℕ)
better path best prefix =
    let (neg, p) = strip_bang prefix in
    if starts_with path p && ltb (best_length best) (length p)
    then some (not neg, length p)
    else best

unfoldable pub best_from : List ℕ → Option (Bool × ℕ) → List (List ℕ) → Option (Bool × ℕ)
best_from path best [] = best
best_from path best (prefix ∷ prefixes) = best_from path (better path best prefix) prefixes

unfoldable pub accept_path : FilePath → List (List ℕ) → Bool
accept_path path prefixes = elim (to_str path) [
  | none ↦ false
  | some s ↦ elim (best_from s none prefixes) [ none ↦ true | some (accepted, _) ↦ accepted ]
]

pub record DefaultAdmissionPolicy (rc : RejectCache) : Type 0 where
  pub minsize : ℕ
  pub exeprefix : List (List ℕ)
  pub mapprefix : List (List ℕ)
  pub cache_ttl : ℕ
  pub cache_capacity : ℕ
  pub cache : Option rc.Cache
  pub cache_hits : ℕ
  pub cache_misses : ℕ
  pub cache_inserts : ℕ
  pub cache_invalidations : ℕ

module _ {rc : RejectCache} where
  unfoldable pub new_policy : PolicyConfig → DefaultAdmissionPolicy rc
  new_policy config = record {
    minsize = config.minsize;
    exeprefix = config.exeprefix;
    mapprefix = config.mapprefix;
    cache_ttl = config.policy_cache_ttl;
    cache_capacity = config.policy_cache_capacity;
    cache =
        if (config.policy_cache_capacity == 0) || (config.policy_cache_ttl == 0)
        then none
        else some (rc.build config.policy_cache_capacity config.policy_cache_ttl);
    cache_hits = 0;
    cache_misses = 0;
    cache_inserts = 0;
    cache_invalidations = 0;
  }

  -- `Clone`: the counters of the copy start at zero; the cache is shared with the original.
  unfoldable pub clone : DefaultAdmissionPolicy rc → DefaultAdmissionPolicy rc
  clone policy = record policy {
    cache_hits = 0;
    cache_misses = 0;
    cache_inserts = 0;
    cache_invalidations = 0;
  }

  abbrev pub allow_exe : DefaultAdmissionPolicy rc → FilePath → Bool
  allow_exe policy path = accept_path path policy.exeprefix

  abbrev pub allow_map : DefaultAdmissionPolicy rc → FilePath → Bool
  allow_map policy path = accept_path path policy.mapprefix

  unfoldable pub cache_reject :
      DefaultAdmissionPolicy rc → FilePath → RejectReason → DefaultAdmissionPolicy rc
  cache_reject policy path reason = elim policy.cache [
    | none ↦ policy
    | some cache ↦ record policy {
      cache = some (rc.insert cache path reason);
      cache_inserts = fetch_add_one policy.cache_inserts;
    }
  ]

  unfoldable pub cache_clear : DefaultAdmissionPolicy rc → FilePath → DefaultAdmissionPolicy rc
  cache_clear policy path = elim policy.cache [
    | none ↦ policy
    | some cache ↦ record policy {
      cache = some (rc.invalidate cache path);
      cache_invalidations = fetch_add_one policy.cache_invalidations;
    }
  ]

  -- The lookup at the start of `decide`, with its counters.
  unfoldable pub look_up :
      DefaultAdmissionPolicy rc → FilePath → Option RejectReason × DefaultAdmissionPolicy rc
  look_up policy path = elim policy.cache [
    | none ↦ (none, policy)
    | some cache ↦
        let (found, after) = rc.get cache path in
        elim found [
          | some reason ↦ (
            some reason,
            record policy { cache = some after; cache_hits = fetch_add_one policy.cache_hits },
          )
          | none ↦ (
            none,
            record policy { cache = some after; cache_misses = fetch_add_one policy.cache_misses },
          )
        ]
  ]

  -- `decide` after the lookup.
  unfoldable pub decide_uncached :
      DefaultAdmissionPolicy rc → CandidateExe → AdmissionDecision × DefaultAdmissionPolicy rc
  decide_uncached policy candidate =
      let refuse : RejectReason → AdmissionDecision × DefaultAdmissionPolicy rc =
        λ reason. (reject reason, cache_reject policy candidate.path reason) in
      if not (allow_exe policy candidate.path)
      then refuse exe_prefix_denied
      else elim candidate.maps [
        | [] ↦ elim candidate.rejected_maps [
          | [] ↦ refuse missing_maps
          | _ ∷ _ ↦ refuse map_prefix_denied
        ]
        | _ ∷ _ ↦ if ltb candidate.total_size policy.minsize then refuse too_small else (
          accept (elim candidate.rejected_maps [ [] ↦ full | _ ∷ _ ↦ partial ]),
          cache_clear policy candidate.path,
        )
      ]

  unfoldable pub decide :
      DefaultAdmissionPolicy rc → CandidateExe → AdmissionDecision × DefaultAdmissionPolicy rc
  decide policy candidate =
      let (found, after) = look_up policy candidate.path in
      elim found [ some reason ↦ (reject reason, after) | none ↦ decide_uncached after candidate ]

  unfoldable pub stats :
      DefaultAdmissionPolicy rc → AdmissionPolicyStats × DefaultAdmissionPolicy rc
  stats policy =
      let counted : ℕ × Option rc.Cache = elim policy.cache [
        | none ↦ (0, none)
        | some cache ↦ let (n, after) = rc.entry_count cache in (n, some after)
      ] in
      (
        record {
          cache_enabled = elim policy.cache [ none ↦ false | some _ ↦ true ];
          cache_hits = policy.cache_hits;
          cache_misses = policy.cache_misses;
          cache_inserts = policy.cache_inserts;
          cache_invalidations = policy.cache_invalidations;
          cache_entries = counted.0;
          cache_capacity = policy.cache_capacity;
          cache_ttl = policy.cache_ttl;
        },
        record policy { cache = counted.1 },
      )
