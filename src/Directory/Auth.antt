-- ===== src/Directory/Auth.antt =====
-- The HMAC check of directory/main.go: what it ties a request to, and what it does not.
use sbnet.Base.{
  ℕ, ◌≡◌, ◌∙◌, Bool, true, false, Option, none, some, String, arith, ◌==◌, string_comparable,
  if◌then◌else◌,
}
use sbnet.Base.Int.{ℤ, ◌-ℤ◌, Within, out_of_window, out_of_window_sound, out_of_window_self}
use sbnet.Types.{RelayDescriptor, RegisterRequest, kind_relay}
use sbnet.Directory.{DirectoryServer, Mac, hmac_message, hmac_message_of_relay, verify_hmac}
use text.Mathlib.TextEquality.{eq_iff}

accepted :
    (out : Bool) (m : Option String) (f : String → String) (hmac : String)
    → (if out then false else elim m [ none ↦ false | some msg ↦ hmac == f msg ]) ≡ true
    → (out ≡ false) × ((msg : String) × (m ≡ some msg) × ((hmac == f msg) ≡ true))
accepted out m f hmac h = ground arith

-- A request that passes has a timestamp at most the window away from the clock, on either
-- side, and it names a node whose identity, under the secret, has the HMAC that it carries.
pub verify_hmac_sound :
    (mac : Mac) (s : DirectoryServer) (now : ℤ) (req : RegisterRequest) (window : ℕ)
    → verify_hmac mac s now req window ≡ true
    → Within window req.timestamp now
      × Within window now req.timestamp
      × ((msg : String) × (hmac_message req ≡ some msg) × (req.hmac ≡ mac s.reg_secret msg))
unfolding verify_hmac
verify_hmac_sound mac s now req window h =
    let (out, found) =
      accepted (out_of_window window (now -ℤ req.timestamp)) (hmac_message req) (mac s.reg_secret)
        req.hmac h in
    let (late, early) = out_of_window_sound window now req.timestamp out in
    (late, early, (found.0, found.1, (eq_iff req.hmac (mac s.reg_secret found.0)).0 found.2))

hmac_message-identity :
    (req : RegisterRequest) (later : ℤ) (rd forged : RelayDescriptor)
    → req.kind ≡ kind_relay
    → req.relay ≡ some rd
    → forged.id ≡ rd.id
    → forged.ip ≡ rd.ip
    → forged.role ≡ rd.role
    → forged.public_key ≡ rd.public_key
    → hmac_message (record req { relay = some forged; timestamp = later }) ≡ hmac_message req
unfolding hmac_message
hmac_message-identity req later rd forged k r a b c d = rw (k, r, hmac_message_of_relay, a, b, c, d)

-- The timestamp is not under the HMAC, nor is any field of a relay but its identity: whoever has
-- seen one accepted relay registration can send it at any later time with a new timestamp, and with
-- another port, country, mode, bandwidth and LastSeen, and it passes.
pub verify_hmac_replayed :
    (mac : Mac) (s : DirectoryServer) (now later : ℤ) (req : RegisterRequest) (window wider : ℕ)
    (rd forged : RelayDescriptor)
    → req.kind ≡ kind_relay
    → req.relay ≡ some rd
    → forged.id ≡ rd.id
    → forged.ip ≡ rd.ip
    → forged.role ≡ rd.role
    → forged.public_key ≡ rd.public_key
    → verify_hmac mac s now req window ≡ true
    → verify_hmac mac s later (record req { relay = some forged; timestamp = later }) wider ≡ true
unfolding verify_hmac
verify_hmac_replayed mac s now later req window wider rd forged k r a b c d h =
    let (out, found) =
      accepted (out_of_window window (now -ℤ req.timestamp)) (hmac_message req) (mac s.reg_secret)
        req.hmac h in
    let same = hmac_message-identity req later rd forged k r a b c d in
    rw (out_of_window_self wider later, verify_hmac, same ∙ found.1) (found.2)
