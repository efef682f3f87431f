-- ===== src/Base/Query.antt =====
-- url.ParseQuery and Values.Get of Go's library, on bytes.
pub mod Printed
use Prim.Native.Nat.{ℕ, ◌+◌, ◌-◌, ◌*◌}
use mathlib.Core.Path.{◌≡◌, refl, sym, ap, ◌∙◌}
use mathlib.Core.Bool.{Bool, true, false, ◌&&◌, ◌||◌, or_assoc}
use mathlib.Core.Option.{Option, none, some}
use mathlib.Core.List.{List, [], ◌∷◌, ◌++◌}
use native.Mathlib.Omega.{arith}
use sbnet.Base.Tests.{leb, ◌==◌, nat_comparable, if◌then◌else◌}
use sbnet.Base.Lists.{All}
use sbnet.Base.Bytes.{Bytes}

-- "&", "=", ";", "%" and "+".
abbrev pub ampersand : ℕ
ampersand = 38

abbrev pub equals_sign : ℕ
equals_sign = 61

abbrev pub semicolon : ℕ
semicolon = 59

abbrev pub percent : ℕ
percent = 37

abbrev pub plus_sign : ℕ
plus_sign = 43

abbrev hex_digit : ℕ → Option ℕ
hex_digit b =
    if leb 48 b && leb b 57
    then some (b - 48)
    else if leb 65 b && leb b 70
    then some (b - 55)
    else if leb 97 b && leb b 102
    then some (b - 87)
    else none

-- What of an escape was read.
pub data Escape : Type 0 where
  outside : Escape
  begun : Escape
  half : ℕ → Escape

abbrev prepend : ℕ → Option Bytes → Option Bytes
prepend b none = none
prepend b (some text) = some (b ∷ text)

abbrev second_digit : ℕ → Option ℕ → Option Bytes → Option Bytes
second_digit high none rest = none
second_digit high (some low) rest = prepend (high * 16 + low) rest

-- url.QueryUnescape
unfoldable pub unescape_in : Escape → Bytes → Option Bytes
unescape_in outside [] = some []
unescape_in begun [] = none
unescape_in (half high) [] = none
unescape_in outside (b ∷ text) =
    let inside = unescape_in begun text in
    let rest = unescape_in outside text in
    if b == percent then inside else if b == plus_sign then prepend 32 rest else prepend b rest
unescape_in begun (b ∷ text) = elim (hex_digit b) [
  | none ↦ none
  | some high ↦ unescape_in (half high) text
]
unescape_in (half high) (b ∷ text) =
    let rest = unescape_in outside text in second_digit high (hex_digit b) rest

abbrev pub query_unescape : Bytes → Option Bytes
query_unescape text = unescape_in outside text

unfoldable pub contains : ℕ → Bytes → Bool
contains b [] = false
contains b (c ∷ text) = (c == b) || contains b text

-- strings.Cut
abbrev before_cut : ℕ → Bytes × Bytes → Bytes × Bytes
before_cut b (first, rest) = (b ∷ first, rest)

unfoldable pub cut : ℕ → Bytes → Bytes × Bytes
cut sep [] = ([], [])
cut sep (b ∷ text) = let later = cut sep text in if b == sep then ([], text) else before_cut b later

-- The texts between the separators.
abbrev before_split : ℕ → List Bytes → List Bytes
before_split b [] = (b ∷ []) ∷ []
before_split b (first ∷ rest) = (b ∷ first) ∷ rest

unfoldable pub split : ℕ → Bytes → List Bytes
split sep [] = [] ∷ []
split sep (b ∷ text) =
    let later = split sep text in if b == sep then [] ∷ later else before_split b later

abbrev pub Values : Type 0
Values = List (Bytes × Bytes)

abbrev unescaped : Option Bytes → Option Bytes → Option Values → Option Values
unescaped none value rest = none
unescaped (some key) none rest = none
unescaped (some key) (some value) none = none
unescaped (some key) (some value) (some rest) = some ((key, value) ∷ rest)

-- One text between two ampersands, in front of the rest; an empty one is passed over.
unfoldable pub add_pair : Bytes → Option Values → Option Values
add_pair [] rest = rest
add_pair (b ∷ text) rest =
    let (key, value) = cut equals_sign (b ∷ text) in
    if contains semicolon (b ∷ text)
    then none
    else unescaped (query_unescape key) (query_unescape value) rest

unfoldable pub pairs_of : List Bytes → Option Values
pairs_of [] = some []
pairs_of (text ∷ texts) = let rest = pairs_of texts in add_pair text rest

-- `none` is an error.
unfoldable pub parse_query : Bytes → Option Values
parse_query query = pairs_of (split ampersand query)

abbrev pub same_text : Bytes → Bytes → Bool
same_text [] [] = true
same_text [] (y ∷ ys) = false
same_text (x ∷ xs) [] = false
same_text (x ∷ xs) (y ∷ ys) = (x == y) && same_text xs ys

-- The first value of a key, or the empty text.
unfoldable pub get_value : Values → Bytes → Bytes
get_value [] key = []
get_value ((k, v) ∷ values) key =
    let later = get_value values key in if same_text k key then v else later
