-- ===== src/Ori/ReleaseManager/Requests.antt =====
-- What a request and a wait for an epoch come to.
use itoyori.Prelude.{
  ℕ, suc, ◌+◌, ◌≤◌, ◌<◌, ◌^◌, ◌≡◌, ◌≢◌, ◌⊎◌, zero, Option, refl, inl, inr, true, false, arith, max,
  some, List, [], ◌∷◌, ltb, ltb→lt, Bool-cases,
}
use native.Mathlib.Decide.{dec_lt, ℕ_discrete}
use itoyori.Ori.ReleaseManager.{
  RmaData, request_release, wait_for, release_requested, increment_epoch, get_release_handler,
}

-- The target after the other ranks acted `count` times, from a round on.
unfoldable pub interfered : (ℕ → RmaData → RmaData) → ℕ → ℕ → RmaData → RmaData
interfered others round zero d = d
interfered others round (suc count) d = interfered others (round + 1) count (others round d)

-- The other ranks do not take back a request.
abbrev pub Raises : (ℕ → RmaData → RmaData) → Type 0
Raises others = (n : ℕ) (d : RmaData) → d.requested_epoch ≤ (others n d).requested_epoch

-- The result is what the others made of the target in as many rounds as the fuel at most, with the
-- request besides theirs.
pub record Raised (others : ℕ → RmaData → RmaData) (fuel round requested : ℕ) (d : RmaData)
    (result : Option RmaData) : Type 0 where
  pub count : ℕ
  pub in_time : count ≤ fuel
  pub is_raised :
      let e = interfered others round count d in
      result ≡ some (record e { requested_epoch = max e.requested_epoch requested })

module _ (others : ℕ → RmaData → RmaData) (requested : ℕ) where
  -- A round that the loop's test ends, one that swaps, and one that is tried again.
  ended :
      (fuel round seen : ℕ) (d : RmaData)
      → d.requested_epoch ≡ seen
      → requested ≤ seen
      → Raised others
          (suc fuel)
          round
          requested
          d
          (request_release others (suc fuel) round seen requested d)
  unfolding request_release interfered
  ended fuel round seen d e h = record {
    count = 0;
    in_time = ground arith;
    is_raised = ground (arith, e, h);
  }

  swapped :
      (fuel round seen : ℕ) (d : RmaData)
      → seen < requested
      → (others round d).requested_epoch ≡ seen
      → Raised others
          (suc fuel)
          round
          requested
          d
          (request_release others (suc fuel) round seen requested d)
  unfolding request_release interfered
  swapped fuel round seen d h e = record {
    count = 1;
    in_time = ground arith;
    is_raised = ground (arith, h, e);
  }

  retried :
      (fuel round seen : ℕ) (d : RmaData)
      → seen < requested
      → (others round d).requested_epoch ≢ seen
      → Raised others fuel (round + 1) requested (others round d) (
          request_release others fuel
            (round + 1)
            (others round d).requested_epoch
            requested
            (others round d))
      → Raised others
          (suc fuel)
          round
          requested
          d
          (request_release others (suc fuel) round seen requested d)
  unfolding request_release interfered
  retried fuel round seen d h ne r = record {
    count = suc r.count;
    in_time = ground (arith, r.in_time);
    is_raised = ground (arith, h, ne, r.is_raised);
  }

  module _ (raises : Raises others) where
    -- A loop that has seen the last value comes to its end, since each value that it sees is greater.
    from_seen :
        (k round seen : ℕ) (d : RmaData)
        → d.requested_epoch ≡ seen
        → requested ≤ k + seen
        → Raised others
            (suc k)
            round
            requested
            d
            (request_release others (suc k) round seen requested d)
    from_seen zero round seen d e h = ended zero round seen d e (omega (arith, h))
    from_seen (suc k) round seen d e h = elim (dec_lt seen requested) [
      | no n ↦ ended (suc k) round seen d e (omega arith)
      | yes y ↦ elim (ℕ_discrete (others round d).requested_epoch seen) [
        | yes q ↦ swapped (suc k) round seen d y q
        | no ne ↦ retried (suc k) round seen d y ne (
            from_seen k (round + 1) (others round d).requested_epoch (others round d) refl
              (omega (arith, raises round d, ne, e, h)))
      ]
    ]

    -- Where the other ranks, between the compare-and-swaps, change the target in any way that
    -- takes back no request: from a value seen below the wanted epoch, request_release ends
    -- within two rounds more than the wanted epoch exceeds the one requested at first, and leaves
    -- the target as the others made it by then, with the greater one of the wanted epoch and of
    -- the one that they requested.
    pub request_release-Raised :
        (k round seen : ℕ) (d : RmaData)
        → seen < requested
        → requested ≤ k + d.requested_epoch
        → Raised others
            (suc (suc k))
            round
            requested
            d
            (request_release others (suc (suc k)) round seen requested d)
    request_release-Raised k round seen d h fuel =
        elim (ℕ_discrete (others round d).requested_epoch seen) [
          | yes q ↦ swapped (suc k) round seen d h q
          | no ne ↦ retried (suc k) round seen d h ne (
              from_seen k (round + 1) (others round d).requested_epoch (others round d) refl
                (omega (arith, raises round d, fuel)))
        ]

-- Some epoch that is read reaches the required one.
abbrev pub Reached : ℕ → ℕ → List ℕ → Type 0
Reached required cached [] = required ≤ cached
Reached required cached (e ∷ reads) = (required ≤ cached) ⊎ Reached required e reads

-- A wait ends, with an epoch that reaches the required one, if the cached epoch or one that is read does.
pub wait_for-Reached :
    (required cached : ℕ) (reads : List ℕ)
    → Reached required cached reads
    → (e : ℕ) × (wait_for required cached reads ≡ some e) × (required ≤ e)
unfolding wait_for
wait_for-Reached required cached [] h = (cached, ground arith, h)
wait_for-Reached required cached (x ∷ reads) h = elim (Bool-cases (ltb cached required)) [
  | inr f ↦ rw f (cached, refl, ground arith)
  | inl t ↦ rw t (wait_for-Reached required x reads (later h (ltb→lt _ _ t)))
]
  where
    later :
        (required ≤ cached) ⊎ Reached required x reads
        → cached < required
        → Reached required x reads
    later (inl h) f = absurd (omega arith)
    later (inr h) f = h

-- A request for the epoch of a handler is pending until the epoch is incremented once, and then no more.
pub handler-released :
    (my_rank : ℕ) (d : RmaData)
    → d.current_epoch + 1 < 2 ^ 64
    → d.requested_epoch ≤ d.current_epoch
    → (release_requested
          (record d { requested_epoch = (get_release_handler my_rank d).required_epoch })
        ≡ true)
      × (release_requested (
            increment_epoch
              (record d { requested_epoch = (get_release_handler my_rank d).required_epoch }))
          ≡ false)
unfolding release_requested increment_epoch get_release_handler
handler-released my_rank d h f = (ground arith, ground arith)
