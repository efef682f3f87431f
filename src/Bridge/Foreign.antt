-- ===== src/Bridge/Foreign.antt =====
-- The foreign relays of bridge/main.go: the start of a bridge, refreshForeignConsensus and
-- pickForeignEntry.
use mathlib.Core.List.{Memᴰ}
use sbnet.Base.{
  false, ◌≡◌, ◌≢◌, ◌∙◌, refl, ap, ℕ, Option, none, some, List, [], ◌∷◌, ◌==◌, string_comparable,
  Result, ok, err, Bool-cases, Result-cases, inl, inr,
}
use sbnet.Base.Bytes.{Bytes}
use sbnet.Base.Int.{ℤ}
use sbnet.Types.{RelayDescriptor, SignedConsensus}
use sbnet.Config.{BridgeServerConfig}
use sbnet.Consensus.{Verifier, Responses, fetch_verified_consensus}
use sbnet.Client.Guard.{with_role, choose-Mem, with_role-Mem}
use sbnet.Bridge.{
  BridgeServer, pick_foreign_entry, ForeignError, fetch_foreign_consensus, refreshed,
  refresh_foreign_consensus, Dialer, ProxyError, start_bridge, first_relays,
}

-- The relays of a consensus that one of these fetches received and verified.
abbrev pub Verified : Verifier → List (Responses × ℤ) → List RelayDescriptor → Type 0
Verified v fetches relays =
    (responses : Responses) × (now : ℤ) × (c : SignedConsensus) × Memᴰ (responses, now) fetches
    × (fetch_verified_consensus v responses now ≡ ok c)
    × (c.relays ≡ relays)

abbrev relays_of : Option BridgeServer → List RelayDescriptor
relays_of none = []
relays_of (some b) = b.foreign_relays

module _ (v : Verifier) where
  -- A fetch that succeeds has verified its consensus.
  fetched_sound :
      (config : BridgeServerConfig) (responses : Responses) (now : ℤ)
      (relays : List RelayDescriptor)
      → fetch_foreign_consensus v config responses now ≡ ok relays
      → (c : SignedConsensus) × (fetch_verified_consensus v responses now ≡ ok c)
        × (c.relays ≡ relays)
  unfolding fetch_foreign_consensus
  fetched_sound config responses now relays h = elim (Bool-cases (config.foreign_dir_url == "")) [
    | inl e ↦ absurd (let bad = rw e at h in cc)
    | inr e ↦ elim (Result-cases (fetch_verified_consensus v responses now)) [
      | inl (c, got) ↦ (c, got, let same = rw (e, got) at h in cc)
      | inr (x, got) ↦ absurd (let bad = rw (e, got) at h in cc)
    ]
  ]

  fetch-Verified :
      (config : BridgeServerConfig) (responses : Responses) (now : ℤ)
      (relays : List RelayDescriptor) (fetches : List (Responses × ℤ))
      → Memᴰ (responses, now) fetches
      → fetch_foreign_consensus v config responses now ≡ ok relays
      → Verified v fetches relays
  fetch-Verified config responses now relays fetches m h =
      let (c, got, same) = fetched_sound config responses now relays h in
      (responses, now, c, m, got, same)

  refreshed-Verified :
      (fetches : List (Responses × ℤ)) (b : BridgeServer)
      (fetched : Result ForeignError (List RelayDescriptor))
      → Verified v fetches b.foreign_relays
      → ((relays : List RelayDescriptor) → fetched ≡ ok relays → Verified v fetches relays)
      → Verified v fetches (refreshed b fetched).foreign_relays
  refreshed-Verified fetches b (err e) h new = h
  refreshed-Verified fetches b (ok relays) h new = new relays refl

  refresh-Verified :
      (rounds fetches : List (Responses × ℤ)) (b : BridgeServer)
      → ((q : Responses × ℤ) → Memᴰ q rounds → Memᴰ q fetches)
      → Verified v fetches b.foreign_relays
      → Verified v fetches (refresh_foreign_consensus v rounds b).foreign_relays
  unfolding refresh_foreign_consensus
  refresh-Verified [] fetches b inside h = h
  refresh-Verified ((responses, now) ∷ rounds) fetches b inside h =
      refresh-Verified rounds fetches _ (λ q m. inside q (Memᴰ.tail m))
        (refreshed-Verified fetches b (fetch_foreign_consensus v b.config responses now) h
          (λ relays e.
            fetch-Verified b.config responses now relays fetches
              (inside (responses, now) (Memᴰ.head refl)) e))

  -- Rounds in which no consensus is verified change nothing.
  abbrev pub AllFail : List (Responses × ℤ) → Type 0
  AllFail [] = Unit
  AllFail ((responses, now) ∷ rounds) =
      ((c : SignedConsensus) → fetch_verified_consensus v responses now ≢ ok c) × AllFail rounds

  refreshed_fails :
      (b : BridgeServer) (fetched : Result ForeignError (List RelayDescriptor))
      → ((relays : List RelayDescriptor) → fetched ≢ ok relays)
      → refreshed b fetched ≡ b
  refreshed_fails b (err e) none_ok = refl
  refreshed_fails b (ok relays) none_ok = absurd (none_ok relays refl)

  refresh_fails :
      (rounds : List (Responses × ℤ)) (b : BridgeServer)
      → AllFail rounds
      → refresh_foreign_consensus v rounds b ≡ b
  unfolding refresh_foreign_consensus
  refresh_fails [] b h = refl
  refresh_fails ((responses, now) ∷ rounds) b h =
      let same : refreshed b (fetch_foreign_consensus v b.config responses now) ≡ b =
        refreshed_fails b (fetch_foreign_consensus v b.config responses now) (λ relays e.
          let (c, got, is) = fetched_sound b.config responses now relays e in h.0 c got) in
      ap (refresh_foreign_consensus v rounds) same ∙ refresh_fails rounds b h.1

  verified_round :
      (b : BridgeServer) (responses : Responses) (now : ℤ) (c : SignedConsensus)
      → (b.config.foreign_dir_url == "") ≡ false
      → fetch_verified_consensus v responses now ≡ ok c
      → (refresh_foreign_consensus v ((responses, now) ∷ []) b).foreign_relays ≡ c.relays
  unfolding refresh_foreign_consensus fetch_foreign_consensus
  verified_round b responses now c configured got = rw (configured, got) refl

  first-relays :
      (config : BridgeServerConfig) (token : Bytes)
      (fetched : Result ForeignError (List RelayDescriptor)) (b : BridgeServer)
      → first_relays config token fetched ≡ some b
      → fetched ≡ ok b.foreign_relays
  first-relays config token (err e) b h = absurd cc
  first-relays config token (ok relays) b h = ap (λ o. ok (relays_of o)) h

  start-Verified :
      (config : BridgeServerConfig) (token : Bytes) (dialer : Result ProxyError Dialer)
      (responses : Responses) (now : ℤ) (rounds : List (Responses × ℤ)) (b : BridgeServer)
      → start_bridge v config token dialer responses now ≡ some b
      → Verified v ((responses, now) ∷ rounds) b.foreign_relays
  unfolding start_bridge
  start-Verified config token (err e) responses now rounds b h = absurd cc
  start-Verified config token (ok dialer) responses now rounds b h =
      fetch-Verified config responses now b.foreign_relays ((responses, now) ∷ rounds)
        (Memᴰ.head refl)
        (first-relays config token (fetch_foreign_consensus v config responses now) b h)

  -- Every relay that a bridge uses comes from a consensus that it received itself, at its start or
  -- in a round of the refresh, and verified when it received it: without one at the start it does
  -- not serve, rounds that receive none that is verified leave the relays as they were, and a round
  -- that verifies one, with an address of the foreign directory configured, takes exactly its
  -- relays. An entry that it picks is one of those relays and has the role of an entry.
  pub foreign_relays-Verified :
      (config : BridgeServerConfig) (token : Bytes) (dialer : Result ProxyError Dialer)
      (responses : Responses) (now : ℤ) (b : BridgeServer) (rounds : List (Responses × ℤ)) (r : ℕ)
      → start_bridge v config token dialer responses now ≡ some b
      → let later = refresh_foreign_consensus v rounds b in
        Verified v ((responses, now) ∷ rounds) later.foreign_relays
        × ((failing : List (Responses × ℤ))
            → AllFail failing
            → (refresh_foreign_consensus v failing later).foreign_relays ≡ later.foreign_relays)
        × ((received : Responses) (time : ℤ) (c : SignedConsensus)
            → (later.config.foreign_dir_url == "") ≡ false
            → fetch_verified_consensus v received time ≡ ok c
            → (refresh_foreign_consensus v ((received, time) ∷ []) later).foreign_relays ≡ c.relays)
        × ((entry : RelayDescriptor)
            → pick_foreign_entry r later ≡ some entry
            → Memᴰ entry later.foreign_relays × (entry.role ≡ "entry"))
  unfolding pick_foreign_entry
  foreign_relays-Verified config token dialer responses now b rounds r h =
      let later = refresh_foreign_consensus v rounds b in
      (
        refresh-Verified rounds ((responses, now) ∷ rounds) b (λ q m. Memᴰ.tail m)
            (start-Verified config token dialer responses now rounds b h),
        (λ failing fails.
            ap (λ (z : BridgeServer). z.foreign_relays) (refresh_fails failing later fails)),
        (λ received time c configured got. verified_round later received time c configured got),
        (λ entry picked.
            with_role-Mem "entry" later.foreign_relays entry
              (choose-Mem r (with_role "entry" later.foreign_relays) entry picked)),
      )
