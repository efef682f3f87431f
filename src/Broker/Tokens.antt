-- ===== src/Broker/Tokens.antt =====
-- The token store of broker/main.go over time.
use sbnet.Base.{
  ℕ, ◌+◌, ◌≤◌, ◌<◌, ◌≡◌, refl, ap, ◌∙◌, false, none, some, [], ◌∷◌, String, ltb, ◌==◌,
  string_comparable, le→ltb, lt→ltb, Bool-cases, inl, inr,
}
use sbnet.Base.Maps.{lookup, lookup-insert_self, lookup-delete_self}
use sbnet.Types.{RelayDescriptor}
use sbnet.Broker.{TokenEntry, Tokens, token_ttl, issue, judge, validate, gc}

-- The head of the map goes through the collection.
pub gc_keeps :
    (now : ℕ) (token : String) (e : TokenEntry) (tokens : Tokens)
    → lookup token tokens ≡ some e
    → ltb e.expires_at now ≡ false
    → lookup token (gc now tokens) ≡ some e
unfolding gc lookup
gc_keeps now token e [] h live = cc
gc_keeps now token e ((k, x) ∷ tokens) h live = elim (Bool-cases (k == token)) [
  | inl this ↦
      let same : some x ≡ some e = rw this at h in
      let kept : ltb x.expires_at now ≡ false =
        (let y : x ≡ e = cc in ap (λ (z : TokenEntry). ltb z.expires_at now) y ∙ live) in
      rw (kept, this) same
  | inr other ↦
      let later = gc_keeps now token e tokens (rw other at h) live in
      elim (Bool-cases (ltb x.expires_at now)) [
        | inl old ↦ rw old later
        | inr fresh ↦ rw (fresh, other) later
      ]
]

-- A token is good for its relay until five minutes after it was issued, the collection of old tokens
-- notwithstanding; after that it is refused, and forgotten.
pub issue-validate :
    (issued now later : ℕ) (token : String) (relay : RelayDescriptor) (tokens : Tokens)
    → now ≤ issued + token_ttl
    → issued + token_ttl < later
    → ((validate now token (gc now (issue issued token relay tokens))).1 ≡ some relay)
      × ((validate later token (issue issued token relay tokens)).1 ≡ none)
      × (lookup token (validate later token (issue issued token relay tokens)).0 ≡ none)
unfolding validate judge issue
issue-validate issued now later token relay tokens soon late =
    let held =
      lookup-insert_self token (record { relay = relay; expires_at = issued + token_ttl }) tokens in
    (
      rw
          (
            gc_keeps now token _ _ held (le→ltb (issued + token_ttl) now soon),
            le→ltb (issued + token_ttl) now soon,
          )
          refl,
      rw (held, lt→ltb (issued + token_ttl) later late) refl,
      rw (held, lt→ltb (issued + token_ttl) later late) (lookup-delete_self token _),
    )
