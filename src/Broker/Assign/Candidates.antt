-- ===== src/Broker/Assign/Candidates.antt =====
-- The relays of broker/main.go that suit a request, and what each of them is worth.
use sbnet.Base.{
  ℕ, zero, suc, ◌≡◌, refl, ap, ◌∙◌, subst, Bool, true, false, not, ◌&&◌, some, List, [], ◌∷◌,
  String, ◌==◌, if◌then◌else◌, string_comparable, get_elem?, All, Bool-cases, ◌⊎◌, inl, inr, arith,
}
use text.Mathlib.TextEquality.{eq_iff}
use sbnet.Types.{RelayDescriptor, AssignRequest}
use sbnet.Broker.Assign.{Float64, fits_request, Scored, bonus, score, candidates}

-- A relay with the role that is asked for, and with the mode if one is asked for.
abbrev pub Suits : AssignRequest → RelayDescriptor → Type 0
Suits req rd = (rd.role ≡ req.role) × ((req.mode ≡ "") ⊎ (rd.oper_mode ≡ req.mode))

pub fits_request-Suits :
    (req : AssignRequest) (rd : RelayDescriptor) → fits_request req rd ≡ true → Suits req rd
fits_request-Suits req rd h = (
  (eq_iff rd.role req.role).0 (ground arith),
  elim (Bool-cases (req.mode == "")) [
    | inl any ↦ inl ((eq_iff req.mode "").0 any)
    | inr one ↦ inr ((eq_iff rd.oper_mode req.mode).0 (ground arith))
  ],
)

pub Suits-fits_request :
    (req : AssignRequest) (rd : RelayDescriptor) → Suits req rd → fits_request req rd ≡ true
Suits-fits_request req rd (role, inl any) =
    rw ((eq_iff rd.role req.role).1 role, (eq_iff req.mode "").1 any) refl
Suits-fits_request req rd (role, inr one) = elim (Bool-cases (req.mode == "")) [
  | inl e ↦ rw ((eq_iff rd.role req.role).1 role, e) refl
  | inr e ↦ rw ((eq_iff rd.role req.role).1 role, e, (eq_iff rd.oper_mode req.mode).1 one) refl
]

module _ (f : Float64) where
  -- What a relay counts for a request: three for the country that is asked for, two for the region,
  -- its bandwidth's part, and its random part.
  abbrev pub nearness : Bool → Bool → f.F
  nearness true true = f.add_f (f.add_f f.zero_f f.three) f.two
  nearness true false = f.add_f f.zero_f f.three
  nearness false true = f.add_f f.zero_f f.two
  nearness false false = f.zero_f

  abbrev pub asked_for : String → String → Bool
  asked_for asked has = if asked == "" then false else has == asked

  abbrev pub worth : AssignRequest → RelayDescriptor → ℕ → f.F
  worth req rd random =
      f.add_f
        (f.add_f (nearness (asked_for req.country rd.country) (asked_for req.region rd.region))
          (f.bandwidth_part rd.bandwidth))
        (f.jitter random)

  nearness_lem :
      (country region : Bool)
      → bonus f region f.two (bonus f country f.three f.zero_f) ≡ nearness country region
  nearness_lem true true = refl
  nearness_lem true false = refl
  nearness_lem false true = refl
  nearness_lem false false = refl

  asked_for_lem : (asked has : String) → (not (asked == "") && (has == asked)) ≡ asked_for asked has
  asked_for_lem asked has = elim (Bool-cases (asked == "")) [
    | inl e ↦ rw e refl
    | inr e ↦ rw e refl
  ]

  pub score-worth :
      (req : AssignRequest) (rd : RelayDescriptor) (random : ℕ)
      → score f req rd random ≡ worth req rd random
  unfolding score
  score-worth req rd random =
      ap (λ n. f.add_f (f.add_f n (f.bandwidth_part rd.bandwidth)) (f.jitter random))
        (nearness_lem _ _
          ∙ ap (λ b. nearness b (not (req.region == "") && (rd.region == req.region)))
              (asked_for_lem req.country rd.country)
          ∙ ap (nearness (asked_for req.country rd.country)) (asked_for_lem req.region rd.region))

  -- A candidate is a relay of the pool, at its place, that fits.
  abbrev pub Placed : AssignRequest → (ℕ → ℕ) → List RelayDescriptor → Scored f → Type 0
  Placed req random relays c =
      (i : ℕ) × (get_elem? relays i ≡ some c.0)
      × (fits_request req c.0 ≡ true)
      × (c.1 ≡ score f req c.0 (random i))

  Placed-tail :
      (req : AssignRequest) (random : ℕ → ℕ) (rd : RelayDescriptor) (relays : List RelayDescriptor)
      (cs : List (Scored f))
      → All (Placed req (λ i. random (suc i)) relays) cs
      → All (Placed req random (rd ∷ relays)) cs
  Placed-tail req random rd relays [] all = _
  Placed-tail req random rd relays (c ∷ cs) all =
      let (i, at, fit, value) = all.0 in
      ((suc i, at, fit, value), Placed-tail req random rd relays cs all.1)

  pub candidates-Placed :
      (req : AssignRequest) (random : ℕ → ℕ) (relays : List RelayDescriptor)
      → All (Placed req random relays) (candidates f req random relays)
  unfolding candidates
  candidates-Placed req random [] = _
  candidates-Placed req random (rd ∷ relays) =
      let later =
        Placed-tail req random rd relays _ (candidates-Placed req (λ i. random (suc i)) relays) in
      elim (Bool-cases (fits_request req rd)) [
        | inl e ↦ rw e ((0, refl, e, refl), later)
        | inr e ↦ rw e later
      ]

  -- And every relay that fits is one.
  pub candidates_all :
      (P : Scored f → Type 0) (req : AssignRequest) (random : ℕ → ℕ) (relays : List RelayDescriptor)
      (j : ℕ) (other : RelayDescriptor)
      → All P (candidates f req random relays)
      → get_elem? relays j ≡ some other
      → fits_request req other ≡ true
      → P (other, score f req other (random j))
  unfolding candidates
  candidates_all P req random [] j other all h fit = absurd cc
  candidates_all P req random (rd ∷ relays) zero other all h fit =
      let same : rd ≡ other = cc in
      let here = rw (ap (fits_request req) same ∙ fit) at all in
      subst (λ (r : RelayDescriptor). P (r, score f req r (random 0))) same here.0
  candidates_all P req random (rd ∷ relays) (suc j) other all h fit =
      elim (Bool-cases (fits_request req rd)) [
        | inl e ↦
            let split = rw e at all in
            candidates_all P req (λ i. random (suc i)) relays j other split.1 h fit
        | inr e ↦ candidates_all P req (λ i. random (suc i)) relays j other (rw e at all) h fit
      ]
