-- ===== src/Observation/Admission/Verdict.antt =====
-- What a decision of the policy says of its candidate.
use preload_ng.Prelude.{
  ◌≤◌, ◌≡◌, subst, ◌≢◌, ◌↔◌, inl, inr, Bool, true, [], arith, if◌then◌else◌, Option-cases, Bool,
}
use preload_ng.Domain.{FilePath}
use preload_ng.Observation.Event.{CandidateExe}
use preload_ng.Observation.Admission.{
  full, partial, accept, defer, RejectCache, accept_path, DefaultAdmissionPolicy, allow_exe,
  look_up, decide_uncached, decide,
}

module _ {rc : RejectCache} where
  -- The lookup leaves the rules alone.
  look_up_same :
      (policy : DefaultAdmissionPolicy rc) (path : FilePath)
      → ((look_up policy path).1.minsize ≡ policy.minsize)
        × ((look_up policy path).1.exeprefix ≡ policy.exeprefix)
  unfolding look_up
  look_up_same policy path = ground arith

  accept_uncached :
      (policy : DefaultAdmissionPolicy rc) (candidate : CandidateExe) (c : Bool)
      → (decide_uncached policy candidate).0 ≡ accept (if c then full else partial)
      → (allow_exe policy candidate.path ≡ true)
        × (candidate.maps ≢ [])
        × (policy.minsize ≤ candidate.total_size)
        × ((candidate.rejected_maps ≡ []) ↔ (c ≡ true))
  unfolding decide_uncached
  accept_uncached policy candidate c h = ground arith

  -- A candidate that `decide` accepts has a path that the rules for exes allow, at least one allowed
  -- map and at least the minimal size, and it is accepted as full exactly if none of its maps was
  -- rejected; this holds whatever the cache answers.
  pub decide-accept :
      (policy : DefaultAdmissionPolicy rc) (candidate : CandidateExe) (c : Bool)
      → (decide policy candidate).0 ≡ accept (if c then full else partial)
      → (allow_exe policy candidate.path ≡ true)
        × (candidate.maps ≢ [])
        × (policy.minsize ≤ candidate.total_size)
        × ((candidate.rejected_maps ≡ []) ↔ (c ≡ true))
  unfolding decide
  decide-accept policy candidate c h = elim (Option-cases (look_up policy candidate.path).0) [
    | inl missed ↦
        let (minsize, exeprefix) = look_up_same policy candidate.path in
        let (allowed, some_map, large, complete) =
          accept_uncached (look_up policy candidate.path).1 candidate c
            (ground (arith, missed, h)) in
        (
          subst (λ p. accept_path candidate.path p ≡ true) exeprefix allowed,
          some_map,
          subst (λ m. m ≤ candidate.total_size) minsize large,
          complete,
        )
    | inr (reason, hit) ↦ ground arith
  ]

  -- `decide` never defers.
  pub decide-rejects :
      (policy : DefaultAdmissionPolicy rc) (candidate : CandidateExe)
      → ((decide policy candidate).0 ≢ defer)
  unfolding decide decide_uncached
  decide-rejects policy candidate = ground arith
