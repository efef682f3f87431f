-- ===== src/Examples.antt =====
-- The theorems at concrete inputs, with stand-ins for what is not in the repository.
mod Cells
mod Brokers
mod Directories
mod Relays
mod Clients
mod Extends
mod Journeys
mod Bridges
mod Pools
mod Assignments
mod Sockets
mod Refinements
use sbnet.Base.{ℕ, ◌≡◌, refl, String, List, [], ◌∷◌, replicate, none, false, true, Bool}
use sbnet.Base.Bytes.{Bytes}

-- Always the same random byte.
abbrev pub constant_noise : ℕ → ℕ
constant_noise i = 7

abbrev pub layer_noise : ℕ → ℕ → ℕ
layer_noise i = constant_noise

abbrev pub key_a : Bytes
key_a = replicate 32 1

abbrev pub key_b : Bytes
key_b = replicate 32 2

abbrev pub key_c : Bytes
key_c = replicate 32 3
