-- ===== src/Tls/Opening.antt =====
-- `coco_client_tls_open` of client/tls.c, with `ssl_why` and the options of client/zeytun.h: the
-- checks of a secure connection in their order.
use cocolog.Prelude.{
  ℕ, Bool, true, false, ◌||◌, not, Option, none, some, List, ◌++◌, text, take, if◌then◌else◌,
}

-- `coco_tls_options`
pub record TlsOptions : Type 0 where
  pub cacert : Option (List ℕ)
  pub capath : Option (List ℕ)
  pub cert : Option (List ℕ)
  pub key : Option (List ℕ)
  pub key_pass : Option (List ℕ)
  pub insecure : Bool

-- What a handshake was set up with. The least version and the server's name are none where OpenSSL
-- did not take them. The authority is none where it is the system's; `named` is the name that the
-- certificate has to bear, where one is demanded.
pub record Handshake : Type 0 where
  pub least_version : Option ℕ
  pub authority : Option (Option (List ℕ) × Option (List ℕ))
  pub identity : Option (List ℕ × List ℕ)
  pub server_name : Option (List ℕ)
  pub named : Option (List ℕ)
  pub partial_wildcards : Bool
  pub verifies_peer : Bool

-- What `SSL_connect` comes to: the session, or its failure with the text of the verification's
-- result, which is none for `X509_V_OK`.
pub data Connected : Type 0 where
  connected : ℕ → Connected
  not_connected : Option (List ℕ) → Connected

-- OpenSSL's answers. `queued` is the error that `ERR_get_error` has where a step fails.
pub record OpenSsl : Type 0 where
  pub memory : Bool
  pub context : Bool
  pub version_set : Bool
  pub authority_read : Option (List ℕ) → Option (List ℕ) → Bool
  pub system_read : Bool
  pub certificate_pem : List ℕ → Bool
  pub certificate_asn1 : List ℕ → Bool
  pub key_pem : List ℕ → Bool
  pub key_asn1 : List ℕ → Bool
  pub key_matches : List ℕ → List ℕ → Bool
  pub session : Bool
  pub server_name_set : List ℕ → Bool
  pub name_set : List ℕ → Bool
  pub socket_set : Bool
  pub connect : Handshake → Connected
  pub queued : Option (List ℕ)

-- A step, or the message with which it stops.
pub data Step (A : Type 0) : Type 0 where
  made : A → Step A
  bad : List ℕ → Step A

infixl 5 ◌then_do◌
unfoldable pub ◌then_do◌ : {A B : Type 0} → Step A → (A → Step B) → Step B
made a then_do f = f a
bad m then_do f = bad m

-- `if (!test) { …; goto bad; }`, and then the rest.
unfoldable pub need : {A : Type 0} → Bool → List ℕ → Step A → Step A
need true m rest = rest
need false m rest = bad m

-- `ssl_why`; its own buffer has room for 255 bytes.
unfoldable pub ssl_why : Option (List ℕ) → List ℕ → List ℕ
ssl_why none what = what
ssl_why (some e) what = what ++ (text ": " ++ take 255 e)

unfoldable pub is_some : {A : Type 0} → Option A → Bool
is_some none = false
is_some (some a) = true

-- The authority to check the server against.
unfoldable pub set_authority :
    OpenSsl → TlsOptions → Bool → Step (Option (Option (List ℕ) × Option (List ℕ)))
set_authority a o true =
    need (a.authority_read o.cacert o.capath) (ssl_why a.queued (text "cannot read the authority"))
      (made (some (o.cacert, o.capath)))
set_authority a o false =
    need a.system_read (ssl_why a.queued (text "cannot read the system authorities")) (made none)

-- This end's certificate: both halves, or neither.
unfoldable pub set_identity :
    OpenSsl → Option (List ℕ) → Option (List ℕ) → Step (Option (List ℕ × List ℕ))
set_identity a none none = made none
set_identity a (some c) none = bad (text "a client certificate needs both --cert and --key")
set_identity a none (some k) = bad (text "a client certificate needs both --cert and --key")
set_identity a (some c) (some k) =
    need (a.certificate_pem c || a.certificate_asn1 c)
      (ssl_why a.queued (text "cannot read this end's certificate"))
      (need (a.key_pem k || a.key_asn1 k)
        (ssl_why a.queued (text "cannot read this end's private key"))
        (need (a.key_matches c k) (text "this end's private key does not belong to its certificate")
          (made (some (c, k)))))

-- The name to check, unless nothing is to be verified.
unfoldable pub set_name : OpenSsl → Bool → List ℕ → Step (Option (List ℕ))
set_name a true host = made none
set_name a false host =
    need (a.name_set host) (text "cannot check the name " ++ host) (made (some host))

-- The handshake itself, on the descriptor.
unfoldable pub finish : OpenSsl → Handshake → Connected → Step (ℕ × Handshake)
finish a h (connected ssl) = made (ssl, h)
finish a h (not_connected none) = bad (ssl_why a.queued (text "the handshake failed"))
finish a h (not_connected (some r)) = bad (text "the server's certificate was refused: " ++ r)

unfoldable pub shake : OpenSsl → Handshake → Step (ℕ × Handshake)
shake a h =
    need a.socket_set (ssl_why a.queued (text "cannot use the socket")) (finish a h (a.connect h))

-- `TLS1_2_VERSION`
abbrev pub tls_1_2 : ℕ
tls_1_2 = 0x0303

-- What the handshake is set up with, from what the steps before it made. What
-- `SSL_CTX_set_min_proto_version` and `SSL_set_tlsext_host_name` answer is not looked at.
unfoldable pub handshake_of :
    OpenSsl
    → Option (Option (List ℕ) × Option (List ℕ))
    → Option (List ℕ × List ℕ)
    → List ℕ
    → Option (List ℕ)
    → Handshake
unfolding is_some
handshake_of a authority identity host named = record {
  least_version = if a.version_set then some tls_1_2 else none;
  authority = authority;
  identity = identity;
  server_name = if a.server_name_set host then some host else none;
  named = named;
  partial_wildcards = not (is_some named);
  verifies_peer = is_some named;
}

-- `coco_client_tls_open`, up to the length of the message.
unfoldable pub tls_open : OpenSsl → TlsOptions → List ℕ → Step (ℕ × Handshake)
tls_open a o host = need a.memory (text "out of memory") (
    need a.context (ssl_why a.queued (text "cannot make a TLS context")) (
      set_authority a o (is_some o.cacert || is_some o.capath) then_do (λ authority.
        set_identity a o.cert o.key then_do (λ identity.
          need a.session (ssl_why a.queued (text "cannot make a TLS connection")) (
            set_name a o.insecure host
            then_do (λ named. shake a (handshake_of a authority identity host named)))))))
