-- ===== src/Client/Guard.antt =====
-- pickRelay and loadOrPickGuard of client/main.go. The random byte, the clock and the guard file are
-- arguments; a file that does not decode reads as the zero state.
use mathlib.Core.List.{Memᴰ}
use sbnet.Base.{
  ℕ, zero, suc, ◌%◌, ◌&&◌, ◌≡◌, refl, sym, ap, ◌∙◌, true, Option, none, some, List, [], ◌∷◌, String,
  arith, ◌==◌, string_comparable, if◌then◌else◌, length, get_elem?, Bool-cases, inl, inr, ◌⊎◌,
}
use sbnet.Base.Int.{ℤ}
use sbnet.Types.{RelayDescriptor}
use text.Mathlib.TextEquality.{eq_iff}

unfoldable pub with_role : String → List RelayDescriptor → List RelayDescriptor
with_role role [] = []
with_role role (rd ∷ relays) =
    let rest = with_role role relays in if rd.role == role then rd ∷ rest else rest

abbrev pub choose : ℕ → List RelayDescriptor → Option RelayDescriptor
choose r [] = none
choose r (rd ∷ pool) = get_elem? (rd ∷ pool) (r % length (rd ∷ pool))

unfoldable pub pick_relay : ℕ → List RelayDescriptor → String → Option RelayDescriptor
pick_relay r relays role = choose r (with_role role relays)

pub record GuardState : Type 0 where
  pub relay_id : String
  pub pinned_at : ℤ

unfoldable pub find_guard : String → List RelayDescriptor → Option RelayDescriptor
find_guard id [] = none
find_guard id (rd ∷ relays) =
    let rest = find_guard id relays in
    if (rd.id == id) && (rd.role == "entry") then some rd else rest

abbrev pub pinned : Option GuardState → List RelayDescriptor → Option RelayDescriptor
pinned none relays = none
pinned (some state) relays = find_guard state.relay_id relays

-- What the guard file holds after a write of it: the error of os.WriteFile is ignored, and the file
-- may then be missing, or as it was.
abbrev pub WriteFile : Type 0
WriteFile = Option GuardState → GuardState → Option GuardState

-- The guard, and the file after the call.
abbrev pub new_guard :
    WriteFile
    → ℤ
    → Option GuardState
    → Option RelayDescriptor
    → Option RelayDescriptor × Option GuardState
new_guard write now file none = (none, file)
new_guard write now file (some guard) =
    (some guard, write file (record { relay_id = guard.id; pinned_at = now }))

abbrev pub keep_or_pick :
    WriteFile
    → ℕ
    → ℤ
    → Option GuardState
    → List RelayDescriptor
    → Option RelayDescriptor
    → Option RelayDescriptor × Option GuardState
keep_or_pick write r now file relays none = new_guard write now file (pick_relay r relays "entry")
keep_or_pick write r now file relays (some guard) = (some guard, file)

unfoldable pub load_or_pick_guard :
    WriteFile
    → ℕ
    → ℤ
    → Option GuardState
    → List RelayDescriptor
    → Option RelayDescriptor × Option GuardState
load_or_pick_guard write r now file relays =
    keep_or_pick write r now file relays (pinned file relays)

get-Mem :
    (xs : List RelayDescriptor) (i : ℕ) (x : RelayDescriptor) → get_elem? xs i ≡ some x → Memᴰ x xs
get-Mem [] i x h = cc
get-Mem (y ∷ xs) zero x h = Memᴰ.head (let e : x ≡ y = cc in e)
get-Mem (y ∷ xs) (suc i) x h = Memᴰ.tail (get-Mem xs i x h)

pub choose-Mem :
    (r : ℕ) (pool : List RelayDescriptor) (x : RelayDescriptor)
    → choose r pool ≡ some x
    → Memᴰ x pool
choose-Mem r [] x h = cc
choose-Mem r (rd ∷ pool) x h = get-Mem (rd ∷ pool) (r % length (rd ∷ pool)) x h

Mem-split :
    (x y : RelayDescriptor) (xs : List RelayDescriptor) → Memᴰ x (y ∷ xs) → (x ≡ y) ⊎ Memᴰ x xs
Mem-split x y xs (Memᴰ.head e) = inl e
Mem-split x y xs (Memᴰ.tail h) = inr h

pub with_role-Mem :
    (role : String) (relays : List RelayDescriptor) (x : RelayDescriptor)
    → Memᴰ x (with_role role relays)
    → Memᴰ x relays × (x.role ≡ role)
unfolding with_role
with_role-Mem role [] x h = elim h [ ]
with_role-Mem role (rd ∷ relays) x h = elim (Bool-cases (rd.role == role)) [
  | inl e ↦ elim (Mem-split x rd _ (rw e at h)) [
    | inl same ↦
        (Memᴰ.head same, ap (λ (y : RelayDescriptor). y.role) same ∙ (eq_iff rd.role role).0 e)
    | inr later ↦ let (m, s) = with_role-Mem role relays x later in (Memᴰ.tail m, s)
  ]
  | inr e ↦ let (m, s) = with_role-Mem role relays x (rw e at h) in (Memᴰ.tail m, s)
]

picked_Mem :
    (r : ℕ) (relays : List RelayDescriptor) (x : RelayDescriptor)
    → pick_relay r relays "entry" ≡ some x
    → Memᴰ x (with_role "entry" relays)
unfolding pick_relay
picked_Mem r relays x h = choose-Mem r (with_role "entry" relays) x h

same_name :
    (rd x : RelayDescriptor)
    → ((rd.id == x.id) && (rd.role == "entry")) ≡ true
    → (rd.id ≡ x.id) × (rd.role ≡ "entry")
same_name rd x h = ((eq_iff rd.id x.id).0 (ground arith), (eq_iff rd.role "entry").0 (ground arith))

listed_itself :
    (rd x : RelayDescriptor)
    → x ≡ rd
    → x.role ≡ "entry"
    → ((rd.id == x.id) && (rd.role == "entry")) ≡ true
listed_itself rd x same entry =
    rw
      (
        (eq_iff rd.id x.id).1 (sym (ap (λ (y : RelayDescriptor). y.id) same)),
        (eq_iff rd.role "entry").1 (sym (ap (λ (y : RelayDescriptor). y.role) same) ∙ entry),
      )
      refl

-- A listed entry relay is found again by its name.
find_guard_listed :
    (relays : List RelayDescriptor) (x : RelayDescriptor)
    → Memᴰ x relays
    → x.role ≡ "entry"
    → (g : RelayDescriptor) × (find_guard x.id relays ≡ some g) × (g.id ≡ x.id) × (g.role ≡ "entry")
unfolding find_guard
find_guard_listed [] x h entry = elim h [ ]
find_guard_listed (rd ∷ relays) x h entry =
    elim (Bool-cases ((rd.id == x.id) && (rd.role == "entry"))) [
      | inl e ↦ (rd, rw e refl, (same_name rd x e).0, (same_name rd x e).1)
      | inr e ↦ elim (Mem-split x rd relays h) [
        | inl same ↦ absurd (let bad = listed_itself rd x same entry in cc)
        | inr later ↦
            let (g, found, name, role) = find_guard_listed relays x later entry in
            (g, rw e found, name, role)
      ]
    ]

new_guard_inv :
    (write : WriteFile) (now : ℤ) (o : Option RelayDescriptor) (guard : RelayDescriptor)
    → (new_guard write now none o).0 ≡ some guard
    → o ≡ some guard
new_guard_inv write now none guard h = h
new_guard_inv write now (some g) guard h = h

-- A guard that is picked where no guard file can be read is a listed entry relay. If the write of
-- the file succeeds, every later call with that list returns an entry relay with the same name and
-- leaves the file alone, whatever the random byte. If there is still no file after the write, the
-- later call is as if it were the first.
pub guard_stays :
    (write : WriteFile) (r r' : ℕ) (now later : ℤ) (relays : List RelayDescriptor)
    (guard : RelayDescriptor)
    → (load_or_pick_guard write r now none relays).0 ≡ some guard
    → let state : GuardState = record { relay_id = guard.id; pinned_at = now } in
      Memᴰ guard relays
      × (guard.role ≡ "entry")
      × (write none state ≡ some state
          → (again : RelayDescriptor) × (load_or_pick_guard write r' later
                (load_or_pick_guard write r now none relays).1
                relays
              ≡ (some again, some state))
            × (again.id ≡ guard.id)
            × (again.role ≡ "entry"))
      × (write none state ≡ none
          → load_or_pick_guard write r' later (load_or_pick_guard write r now none relays).1 relays
            ≡ load_or_pick_guard write r' later none relays)
unfolding load_or_pick_guard
guard_stays write r r' now later relays guard h =
    let picked = new_guard_inv write now (pick_relay r relays "entry") guard h in
    let (member, entry) = with_role-Mem "entry" relays guard (picked_Mem r relays guard picked) in
    let (again, found, name, role) = find_guard_listed relays guard member entry in
    (
      member,
      entry,
      (λ written. (again, rw (picked, written, found) refl, name, role)),
      (λ lost. rw (picked, lost) refl),
    )
