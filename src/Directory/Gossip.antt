-- ===== src/Directory/Gossip.antt =====
-- The handlers of directory/main.go: what each answers, and what reaches the peer directories.
use sbnet.Base.{
  ◌≡◌, refl, ap, ◌∙◌, Bool, true, false, Option, none, some, List, [], ◌∷◌, map, String, arith,
  string_comparable, nat_beq, if◌then◌else◌, Bool-cases, inl, inr, ◌⊎◌, All,
}
use sbnet.Base.Int.{ℤ, Within, out_of_window_complete}
use sbnet.Base.Maps.{beq_refl}
use sbnet.Types.{RegisterRequest}
use sbnet.Directory.{
  DirectoryServer, Mac, Handled, Post, hmac_message, verify_hmac, store_registration, gossip,
  handle_register, handle_sync,
}
use sbnet.Directory.Store.{Keeps, Keeps-refl, store_registration-Keeps, store_registration_error}

-- Either the body decoded, its HMAC passed and the reply is 200, or the server is unchanged and
-- nothing is sent to a peer.
pub handle_register_outcomes :
    (mac : Mac) (s : DirectoryServer) (now : ℤ) (body : Option RegisterRequest)
    → ((req : RegisterRequest) × (body ≡ some req)
        × (verify_hmac mac s now req 30 ≡ true)
        × ((handle_register mac s now body).reply.status ≡ 200))
      ⊎ (((handle_register mac s now body).server ≡ s)
          × ((handle_register mac s now body).posts ≡ []))
unfolding handle_register
handle_register_outcomes mac s now none = inr (refl, refl)
handle_register_outcomes mac s now (some req) = elim (Bool-cases (verify_hmac mac s now req 30)) [
  | inl passed ↦ elim (Bool-cases (nat_beq (store_registration s now req true).1.code 0)) [
    | inl fine ↦ inl (req, refl, passed, rw (passed, fine))
    | inr bad ↦
        inr (rw (passed, bad) (store_registration_error s now req true bad), rw (passed, bad))
  ]
  | inr failed ↦ inr (rw failed, rw failed)
]

Keeps-if :
    (s : DirectoryServer) (b : Bool) (x y : Handled)
    → Keeps s x.server
    → Keeps s y.server
    → Keeps s (if b then x else y).server
Keeps-if s true x y h k = h
Keeps-if s false x y h k = k

sync_silent :
    (mac : Mac) (s : DirectoryServer) (now : ℤ) (body : Option RegisterRequest)
    → (handle_sync mac s now body).posts ≡ []
unfolding handle_sync
sync_silent mac s now none = refl
sync_silent mac s now (some req) = ground arith

-- A receipt from a peer is never passed on, and what a handler holds only grows newer.
pub handlers-Keeps :
    (mac : Mac) (s : DirectoryServer) (now : ℤ) (body : Option RegisterRequest)
    → Keeps s (handle_register mac s now body).server
      × Keeps s (handle_sync mac s now body).server
      × ((handle_sync mac s now body).posts ≡ [])
unfolding handle_register handle_sync
handlers-Keeps mac s now none = (Keeps-refl s, Keeps-refl s, refl)
handlers-Keeps mac s now (some req) =
    let registered = store_registration-Keeps s now req true in
    let synced = store_registration-Keeps s now req false in
    (
      Keeps-if s _ _ _ (Keeps-refl s) (Keeps-if s _ _ _ registered registered),
      Keeps-if s _ _ _ (Keeps-refl s) (Keeps-if s _ _ _ synced synced),
      sync_silent mac s now (some req),
    )

same_identity :
    (req : RegisterRequest) (t : ℤ) (h : String)
    → hmac_message (record req { timestamp = t; hmac = h }) ≡ hmac_message req
unfolding hmac_message
same_identity req t h = refl

resigned_passes :
    (mac : Mac) (s p : DirectoryServer) (now later : ℤ) (req : RegisterRequest) (msg : String)
    → hmac_message req ≡ some msg
    → p.reg_secret ≡ s.reg_secret
    → Within 120 now later
    → Within 120 later now
    → verify_hmac mac p later (record req { timestamp = now; hmac = mac s.reg_secret msg }) 120
      ≡ true
unfolding verify_hmac
resigned_passes mac s p now later req msg m same early late =
    rw
      (
        out_of_window_complete 120 later now early late,
        same_identity req now (mac s.reg_secret msg) ∙ m,
        same,
      )
      (beq_refl (mac s.reg_secret msg))

All-posts :
    (mac : Mac) (p : DirectoryServer) (later : ℤ) (out : RegisterRequest)
    → verify_hmac mac p later out 120 ≡ true
    → (peers : List String)
    → All
        (λ (post : Post). verify_hmac mac p later post.request 120 ≡ true)
        (map (λ (peer : String). record { peer = peer; request = out }) peers)
All-posts mac p later out h [] = tt
All-posts mac p later out h (peer ∷ peers) = (h, All-posts mac p later out h peers)

peers_of :
    (peers : List String) (out : RegisterRequest)
    → map
        (λ (post : Post). post.peer)
        (map (λ (peer : String). record { peer = peer; request = out }) peers)
      ≡ peers
peers_of [] out = refl
peers_of (peer ∷ peers) out = ap (λ (t : List String). peer ∷ t) (peers_of peers out)

-- Every post that gossip makes goes to a peer that is configured, one to each in order, and passes
-- the HMAC check of a peer with the same secret whose clock is at most 120 seconds away.
pub gossip_accepted :
    (mac : Mac) (s p : DirectoryServer) (now later : ℤ) (req : RegisterRequest) (msg : String)
    → hmac_message req ≡ some msg
    → p.reg_secret ≡ s.reg_secret
    → Within 120 now later
    → Within 120 later now
    → (map (λ (post : Post). post.peer) (gossip mac s now req) ≡ s.peer_dirs)
      × All
          (λ (post : Post). verify_hmac mac p later post.request 120 ≡ true)
          (gossip mac s now req)
unfolding gossip
gossip_accepted mac s p now later req msg m same early late =
    let out = record req { timestamp = now; hmac = mac s.reg_secret msg } in
    let passes = resigned_passes mac s p now later req msg m same early late in
    rw (m, gossip) (peers_of s.peer_dirs out, All-posts mac p later out passes s.peer_dirs)
