-- ===== src/Timeout/Laws.antt =====
-- The replay filter and the timeout tracker of common/replay.go over time.
use sbnet.Base.{
  ℕ, ◌+◌, ◌≤◌, ◌≡◌, refl, Bool, true, false, Option, none, some, List, [], ◌∷◌, arith, ltb, ◌==◌,
  nat_comparable, if◌then◌else◌, le→ltb, nat_beq_iff, Bool-cases, inl, inr,
}
use sbnet.Base.Bytes.{Bytes}
use sbnet.Base.Maps.{lookup, beq_refl}
use sbnet.Timeout.{Seen, same_bytes, is_entry, is_seen, allow, gc, replay_window, LastSeen, sweep}

pub same_bytes_refl : (b : Bytes) → same_bytes b b ≡ true
unfolding same_bytes
same_bytes_refl [] = refl
same_bytes_refl (x ∷ b) = rw (beq_refl x, same_bytes_refl b) refl

pub same_bytes_sound : (b c : Bytes) → same_bytes b c ≡ true → b ≡ c
unfolding same_bytes
same_bytes_sound [] [] h = refl
same_bytes_sound [] (y ∷ c) h = cc
same_bytes_sound (x ∷ b) [] h = cc
same_bytes_sound (x ∷ b) (y ∷ c) h = ground (arith, nat_beq_iff x y, same_bytes_sound b c)

is_entry_self :
    (circ_id : ℕ) (nonce : Bytes) (t : ℕ)
    → is_entry circ_id nonce (record { circ_id = circ_id; nonce = nonce; time = t }) ≡ true
is_entry_self circ_id nonce t = rw (beq_refl circ_id, same_bytes_refl nonce) refl

-- A pair that was allowed is refused for the whole window of ten minutes after that, the collection
-- of old entries notwithstanding.
pub allow_replay :
    (t now later circ_id : ℕ) (nonce : Bytes) (seen : List Seen)
    → (allow t circ_id nonce seen).1 ≡ true
    → now ≤ t + replay_window
    → (allow later circ_id nonce (gc now (allow t circ_id nonce seen).0)).1 ≡ false
unfolding allow gc is_seen
allow_replay t now later circ_id nonce seen h soon =
    elim (Bool-cases (is_seen circ_id nonce seen)) [
      | inl e ↦ absurd (let bad = rw e at h in cc)
      | inr e ↦ rw (e, le→ltb (t + replay_window) now soon, is_entry_self circ_id nonce t) refl
    ]

-- No key stands twice, as in a Go map.
abbrev pub Distinct : LastSeen → Type 0
Distinct [] = Unit
Distinct ((id, t) ∷ m) = (lookup id m ≡ none) × Distinct m

abbrev pub is_idle : ℕ → ℕ → Option ℕ → Bool
is_idle now idle none = false
is_idle now idle (some t) = ltb (t + idle) now

abbrev pub member : ℕ → List ℕ → Bool
member id [] = false
member id (x ∷ xs) = if x == id then true else member id xs

-- A tick of the sweep calls back for exactly the circuits whose last activity lies further back
-- than the idle time.
pub sweep_expired :
    (now idle id : ℕ) (m : LastSeen)
    → Distinct m
    → member id (sweep now idle m).1 ≡ is_idle now idle (lookup id m)
unfolding sweep lookup
sweep_expired now idle id [] d = refl
sweep_expired now idle id ((k, t) ∷ m) d = ground (arith, sweep_expired now idle id m d.1)
