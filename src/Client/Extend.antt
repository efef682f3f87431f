-- ===== src/Client/Extend.antt =====
-- One hop more: extendCircuit of client/main.go, the Extend of the relay that it reaches and the
-- Create of the relay that is dialled, both of relay/main.go.
use sbnet.Base.{ℕ, if◌then◌else◌, List, [], ◌∷◌, ◌==◌, nat_comparable, Result, err, ◌>>=◌}
use sbnet.Base.Bytes.{Bytes}
use sbnet.Base.Maps.{lookup}
use sbnet.Cell.{Cell, CellError, read_failed}
use sbnet.Cell.Wire.{transmit}
use sbnet.Crypto.{Aead, KeyExchange}
use sbnet.Relay.{RelayServer, Network, Effect, write, handle_create, handle_extend}
use sbnet.Client.{ClientError}
use sbnet.Client

module _ (r : ℕ) (pad : ℕ → ℕ) where
  -- What is read first on a connection of what a relay does.
  abbrev pub first_on : ℕ → List Effect → Result CellError Cell
  first_on conn [] = err read_failed
  first_on conn (write out c ∷ effects) =
      let rest = first_on conn effects in if out == conn then transmit r pad c else rest
  first_on conn (effect ∷ effects) = first_on conn effects

  -- A relay's answer to a Create that comes on a connection.
  unfoldable pub create_answer :
      KeyExchange → (ℕ → ℕ) → RelayServer → ℕ → Cell → Result CellError Cell
  create_answer x noise s conn c =
      transmit r pad c >>= (λ asked. first_on conn (handle_create x noise s asked conn).1)

  -- A relay's answer to an Extend that comes on a connection.
  unfoldable pub extend_answer : Aead → Network → RelayServer → ℕ → Cell → Result CellError Cell
  extend_answer a net s conn c = transmit r pad c >>= (λ asked.
      first_on conn (handle_extend a net s asked conn (lookup asked.circ_id s.circuits)).1)
