-- ===== src/Base/Query/Printed.antt =====
-- A query that is printed, at url.ParseQuery.
use Prim.Native.Nat.{ℕ}
use mathlib.Core.Path.{◌≡◌, refl, sym, ap, ◌∙◌}
use mathlib.Core.Bool.{false, ◌||◌, or_assoc}
use mathlib.Core.Option.{some}
use mathlib.Core.List.{List, [], ◌∷◌, ◌++◌}
use native.Mathlib.Omega.{arith}
use sbnet.Base.Tests.{◌==◌, nat_comparable}
use sbnet.Base.Lists.{All}
use sbnet.Base.Bytes.{Bytes}
use sbnet.Base.Query.{
  ampersand, equals_sign, semicolon, percent, plus_sign, unescape_in, query_unescape, contains, cut,
  split, Values, add_pair, pairs_of, parse_query,
}

-- A byte that stands for itself within a value.
pub record IsPlain (b : ℕ) : Type 0 where
  pub no_ampersand : (b == ampersand) ≡ false
  pub no_semicolon : (b == semicolon) ≡ false
  pub no_percent : (b == percent) ≡ false
  pub no_plus : (b == plus_sign) ≡ false

pub byte-IsPlain :
    (b : ℕ)
    → ((b == ampersand) || (b == semicolon) || (b == percent) || (b == plus_sign)) ≡ false
    → IsPlain b
byte-IsPlain b h = record {
  no_ampersand = ground arith;
  no_semicolon = ground arith;
  no_percent = ground arith;
  no_plus = ground arith;
}

-- A key of such bytes has no "=" either.
abbrev pub KeyByte : ℕ → Type 0
KeyByte b = IsPlain b × ((b == equals_sign) ≡ false)

unescape-IsPlain : (text : Bytes) → All IsPlain text → query_unescape text ≡ some text
unfolding unescape_in
unescape-IsPlain [] h = refl
unescape-IsPlain (b ∷ text) h = rw (h.0.no_percent, h.0.no_plus, unescape-IsPlain text h.1) refl

contains-append : (b : ℕ) (xs ys : Bytes) → contains b (xs ++ ys) ≡ (contains b xs || contains b ys)
unfolding contains
contains-append b [] ys = refl
contains-append b (x ∷ xs) ys =
    ap (λ t. (x == b) || t) (contains-append b xs ys)
    ∙ sym (or_assoc (x == b) (contains b xs) (contains b ys))

contains-IsPlain : (text : Bytes) → All IsPlain text → contains semicolon text ≡ false
unfolding contains
contains-IsPlain [] h = refl
contains-IsPlain (b ∷ text) h = rw (h.0.no_semicolon, contains-IsPlain text h.1) refl

cut-append :
    (key value : Bytes)
    → All KeyByte key
    → cut equals_sign (key ++ equals_sign ∷ value) ≡ (key, value)
unfolding cut
cut-append [] value h = refl
cut-append (b ∷ key) value h = rw (h.0.1, cut-append key value h.1) refl

split-append :
    (text rest : Bytes)
    → All IsPlain text
    → split ampersand (text ++ ampersand ∷ rest) ≡ text ∷ split ampersand rest
unfolding split
split-append [] rest h = refl
split-append (b ∷ text) rest h = rw (h.0.no_ampersand, split-append text rest h.1) refl

split-IsPlain : (text : Bytes) → All IsPlain text → split ampersand text ≡ text ∷ []
unfolding split
split-IsPlain [] h = refl
split-IsPlain (b ∷ text) h = rw (h.0.no_ampersand, split-IsPlain text h.1) refl

-- "key=value"
abbrev pub assignment : Bytes → Bytes → Bytes
assignment key value = key ++ equals_sign ∷ value

All-KeyByte : (key : Bytes) → All KeyByte key → All IsPlain key
All-KeyByte [] h = _
All-KeyByte (b ∷ key) h = (h.0.0, All-KeyByte key h.1)

assignment-IsPlain :
    (key value : Bytes) → All KeyByte key → All IsPlain value → All IsPlain (assignment key value)
assignment-IsPlain [] value h k =
    (record { no_ampersand = refl; no_semicolon = refl; no_percent = refl; no_plus = refl }, k)
assignment-IsPlain (b ∷ key) value h k = (h.0.0, assignment-IsPlain key value h.1 k)

add_assignment :
    (b : ℕ) (key value : Bytes) (rest : Values)
    → All KeyByte (b ∷ key)
    → All IsPlain value
    → add_pair (assignment (b ∷ key) value) (some rest) ≡ some ((b ∷ key, value) ∷ rest)
unfolding add_pair
add_assignment b key value rest h k =
    rw
      (
        cut-append (b ∷ key) value h,
        contains-IsPlain (assignment (b ∷ key) value) (assignment-IsPlain (b ∷ key) value h k),
        unescape-IsPlain (b ∷ key) (All-KeyByte (b ∷ key) h),
        unescape-IsPlain value k,
      )
      refl

-- Assignments joined by "&", of keys that are not empty and values, all of bytes that stand for
-- themselves.
abbrev pub printed : Bytes × Bytes → List (Bytes × Bytes) → Bytes
printed (key, value) [] = assignment key value
printed (key, value) (kv ∷ kvs) = assignment key value ++ ampersand ∷ printed kv kvs

abbrev pub Printable : Bytes × Bytes → Type 0
Printable ([], value) = ⊥
Printable (b ∷ key, value) = All KeyByte (b ∷ key) × All IsPlain value

add-Printable :
    (kv : Bytes × Bytes) (rest : Values)
    → Printable kv
    → add_pair (assignment kv.0 kv.1) (some rest) ≡ some (kv ∷ rest)
add-Printable ([], value) rest h = absurd h
add-Printable (b ∷ key, value) rest h = add_assignment b key value rest h.0 h.1

Printable-IsPlain : (kv : Bytes × Bytes) → Printable kv → All IsPlain (assignment kv.0 kv.1)
Printable-IsPlain ([], value) h = absurd h
Printable-IsPlain (b ∷ key, value) h = assignment-IsPlain (b ∷ key) value h.0 h.1

-- ParseQuery of the text gives the assignments back, in order.
pub parse_query-printed :
    (kv : Bytes × Bytes) (kvs : List (Bytes × Bytes))
    → All Printable (kv ∷ kvs)
    → parse_query (printed kv kvs) ≡ some (kv ∷ kvs)
unfolding parse_query pairs_of
parse_query-printed (key, value) [] h =
    rw (split-IsPlain (assignment key value) (Printable-IsPlain (key, value) h.0))
      (add-Printable (key, value) [] h.0)
parse_query-printed (key, value) (kv ∷ kvs) h =
    rw (split-append (assignment key value) (printed kv kvs) (Printable-IsPlain (key, value) h.0)) (
      ap (add_pair (assignment key value)) (parse_query-printed kv kvs h.1)
      ∙ add-Printable (key, value) (kv ∷ kvs) h.0)
