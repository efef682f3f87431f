-- ===== src/Broker/Assign/Best.antt =====
-- Which relay the broker of broker/main.go assigns, and how long its token is good.
use sbnet.Base.{
  ℕ, suc, ◌≡◌, ◌≢◌, refl, sym, ap, ◌∙◌, subst, true, false, none, some, List, [], ◌∷◌,
  string_comparable, get_elem?, All, Bool-cases, inl, inr,
}
use sbnet.Types.{RelayDescriptor, AssignRequest}
use sbnet.Broker.Assign.{
  Float64, fits_request, Scored, score, candidates, place, sort_slice, head_relay, pick,
}
use sbnet.Broker.Assign.Candidates.{
  Suits, fits_request-Suits, Suits-fits_request, worth, score-worth, Placed, candidates-Placed,
  candidates_all,
}

-- What `>` promises of scores, none of which is NaN.
pub record IsOrder (f : Float64) : Type 0 where
  pub asym : (a b : f.F) → f.greater a b ≡ true → f.greater b a ≡ false
  pub trans : (a b c : f.F) → f.greater a b ≡ false → f.greater b c ≡ false → f.greater a c ≡ false

module _ (f : Float64) (order : IsOrder f) where
  abbrev pub NotAbove : Scored f → Scored f → Type 0
  NotAbove c d = f.greater d.1 c.1 ≡ false

  NotAbove-itself : (c : Scored f) → NotAbove c c
  NotAbove-itself c = elim (Bool-cases (f.greater c.1 c.1)) [
    | inl e ↦ absurd (let other = order.asym c.1 c.1 e in cc)
    | inr e ↦ e
  ]

  -- The first is at least as good as all.
  abbrev Top : List (Scored f) → Type 0
  Top [] = Unit
  Top (c ∷ cs) = All (NotAbove c) (c ∷ cs)

  module _ (P : Scored f → Type 0) where
    All-place : (c : Scored f) (cs : List (Scored f)) → P c → All P cs → All P (place f c cs)
    unfolding place
    All-place c [] h all = (h, _)
    All-place c (d ∷ cs) h all = elim (Bool-cases (f.greater d.1 c.1)) [
      | inl e ↦ rw e (all.0, All-place c cs h all.1)
      | inr e ↦ rw e (h, all)
    ]

    place-All : (c : Scored f) (cs : List (Scored f)) → All P (place f c cs) → P c × All P cs
    unfolding place
    place-All c [] all = (all.0, _)
    place-All c (d ∷ cs) all = elim (Bool-cases (f.greater d.1 c.1)) [
      | inl e ↦
          let split = rw e at all in let (h, rest) = place-All c cs split.1 in (h, (split.0, rest))
      | inr e ↦ let split = rw e at all in (split.0, split.1)
    ]

    sort_slice-All : (cs : List (Scored f)) → All P (sort_slice f cs) → All P cs
    unfolding sort_slice
    sort_slice-All [] all = _
    sort_slice-All (c ∷ cs) all =
        let (h, rest) = place-All c (sort_slice f cs) all in (h, sort_slice-All cs rest)

    All-sort_slice : (cs : List (Scored f)) → All P cs → All P (sort_slice f cs)
    unfolding sort_slice
    All-sort_slice [] all = _
    All-sort_slice (c ∷ cs) all = All-place c (sort_slice f cs) all.0 (All-sort_slice cs all.1)

  below :
      (c d : Scored f) (cs : List (Scored f))
      → NotAbove c d
      → All (NotAbove d) cs
      → All (NotAbove c) cs
  below c d [] h all = _
  below c d (x ∷ cs) h all = (order.trans x.1 d.1 c.1 all.0 h, below c d cs h all.1)

  place-Top : (c : Scored f) (cs : List (Scored f)) → Top cs → Top (place f c cs)
  unfolding place
  place-Top c [] top = (NotAbove-itself c, _)
  place-Top c (d ∷ cs) top = elim (Bool-cases (f.greater d.1 c.1)) [
    | inl e ↦ rw e (top.0, All-place (NotAbove d) c cs (order.asym d.1 c.1 e) top.1)
    | inr e ↦ rw e (NotAbove-itself c, below c d (d ∷ cs) e top)
  ]

  sort_slice-Top : (cs : List (Scored f)) → Top (sort_slice f cs)
  unfolding sort_slice
  sort_slice-Top [] = _
  sort_slice-Top (c ∷ cs) = place-Top c (sort_slice f cs) (sort_slice-Top cs)

  no_candidates :
      (req : AssignRequest) (random : ℕ → ℕ) (relays : List RelayDescriptor)
      → candidates f req random relays ≡ []
      → All (λ rd. fits_request req rd ≡ false) relays
  unfolding candidates
  no_candidates req random [] h = _
  no_candidates req random (rd ∷ relays) h = elim (Bool-cases (fits_request req rd)) [
    | inl e ↦ absurd (let bad = rw e at h in cc)
    | inr e ↦ (e, no_candidates req (λ i. random (suc i)) relays (rw e at h))
  ]

  placed_some : (c : Scored f) (cs : List (Scored f)) → place f c cs ≢ []
  unfolding place
  placed_some c [] h = cc
  placed_some c (d ∷ cs) h = elim (Bool-cases (f.greater d.1 c.1)) [
    | inl e ↦ let bad = rw e at h in cc
    | inr e ↦ let bad = rw e at h in cc
  ]

  sorted_empty : (cs : List (Scored f)) → sort_slice f cs ≡ [] → cs ≡ []
  unfolding sort_slice
  sorted_empty [] h = refl
  sorted_empty (c ∷ cs) h = absurd (placed_some c (sort_slice f cs) h)

  -- A relay of the pool such that no relay of the pool that suits the request is worth more.
  abbrev pub Best : AssignRequest → (ℕ → ℕ) → List RelayDescriptor → RelayDescriptor → Type 0
  Best req random relays rd =
      (i : ℕ) × (get_elem? relays i ≡ some rd)
      × ((j : ℕ) (other : RelayDescriptor)
          → get_elem? relays j ≡ some other
          → Suits req other
          → f.greater (worth f req other (random j)) (worth f req rd (random i)) ≡ false)

  top-Best :
      (req : AssignRequest) (random : ℕ → ℕ) (relays : List RelayDescriptor)
      (sorted : List (Scored f)) (rd : RelayDescriptor)
      → sort_slice f (candidates f req random relays) ≡ sorted
      → head_relay f sorted ≡ some rd
      → Suits req rd × Best req random relays rd
  top-Best req random relays [] rd e h = absurd cc
  top-Best req random relays (c ∷ cs) rd e h =
      let cands = candidates f req random relays in
      let top = subst Top e (sort_slice-Top cands) in
      let placed = subst (All (Placed f req random relays)) e (
        All-sort_slice (Placed f req random relays) cands
          (candidates-Placed f req random relays)) in
      let all = sort_slice-All (NotAbove c) cands (subst (All (NotAbove c)) (sym e) top) in
      let same : c.0 ≡ rd = cc in
      let (i, at, fit, value) = placed.0 in
      (
        fits_request-Suits req rd
            (subst (λ (r : RelayDescriptor). fits_request req r ≡ true) same fit),
        (
          i,
          at ∙ ap some same,
          (λ j other there suits.
              subst (λ s. f.greater s (worth f req rd (random i)) ≡ false)
                (score-worth f req other (random j))
                (subst (λ s. f.greater (score f req other (random j)) s ≡ false)
                  (value
                    ∙ score-worth f req c.0 (random i)
                    ∙ ap (λ (r : RelayDescriptor). worth f req r (random i)) same)
                  (candidates_all f (NotAbove c) req random relays j other all there
                    (Suits-fits_request req other suits)))),
        ),
      )

  pick_none :
      (req : AssignRequest) (random : ℕ → ℕ) (relays : List RelayDescriptor)
      (sorted : List (Scored f))
      → sort_slice f (candidates f req random relays) ≡ sorted
      → head_relay f sorted ≡ none
      → All (λ rd. fits_request req rd ≡ false) relays
  pick_none req random relays [] e h =
      no_candidates req random relays (sorted_empty (candidates f req random relays) e)
  pick_none req random relays (c ∷ cs) e h = absurd cc

  none-Suits :
      (req : AssignRequest) (relays : List RelayDescriptor)
      → All (λ rd. fits_request req rd ≡ false) relays
      → All (λ rd. ¬ Suits req rd) relays
  none-Suits req [] all = _
  none-Suits req (rd ∷ relays) all =
      ((λ suits. let fit = Suits-fits_request req rd suits in cc), none-Suits req relays all.1)

  -- With scores in an order, the relay that is picked is one of the pool with the role and the
  -- mode that were asked for, and no relay of the pool that has both is worth more: three for the
  -- country, two for the region, and the parts of the bandwidth and the random byte. If none is
  -- picked, no relay of the pool has both.
  pub pick-Best :
      (req : AssignRequest) (random : ℕ → ℕ) (relays : List RelayDescriptor)
      → ((rd : RelayDescriptor)
          → pick f req random relays ≡ some rd
          → Suits req rd × Best req random relays rd)
        × (pick f req random relays ≡ none → All (λ rd. ¬ Suits req rd) relays)
  unfolding pick
  pick-Best req random relays = (
    (λ rd h. top-Best req random relays _ rd refl h),
    (λ h. none-Suits req relays (pick_none req random relays _ refl h)),
  )
