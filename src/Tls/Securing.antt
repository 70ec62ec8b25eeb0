-- ===== src/Tls/Securing.antt =====
-- What a connection that `coco_client_tls_open` opens was set up with, and when it opens one.
use cocolog.Prelude.{
  ℕ, ◌≡◌, refl, ap, ◌∙◌, Bool, true, false, ◌||◌, not, Option, none, some, List, if◌then◌else◌,
}
use cocolog.Tls.Opening.{
  TlsOptions, Handshake, OpenSsl, Connected, connected, not_connected, Step, made, bad, ◌then_do◌,
  need, is_some, set_authority, set_identity, set_name, finish, shake, handshake_of, tls_open,
  tls_1_2,
}

-- `P` holds of what is made, if anything is.
pub data Makes {A : Type 0} (P : A → Type 0) : Step A → Type 0 where
  makes : {a : A} → P a → Makes P (made a)
  stops : {m : List ℕ} → Makes P (bad m)

Makes-then :
    {A B : Type 0} {P : A → Type 0} {Q : B → Type 0} {m : Step A} (f : A → Step B)
    → Makes P m
    → ((a : A) → P a → Makes Q (f a))
    → Makes Q (m then_do f)
unfolding ◌then_do◌
Makes-then f (makes p) k = k _ p
Makes-then f stops k = stops

Makes-need :
    {A : Type 0} {P : A → Type 0} (b : Bool) (m : List ℕ) (r : Step A)
    → (b ≡ true → Makes P r)
    → Makes P (need b m r)
unfolding need
Makes-need true m r h = h refl
Makes-need false m r h = stops

Makes-weaken :
    {A : Type 0} (P Q : A → Type 0) {m : Step A} → Makes P m → ((a : A) → P a → Q a) → Makes Q m
Makes-weaken P Q (makes p) k = makes (k _ p)
Makes-weaken P Q stops k = stops

-- The authority that the options name: the system's where they name none.
unfoldable pub named_authority : TlsOptions → Option (Option (List ℕ) × Option (List ℕ))
named_authority o = if is_some o.cacert || is_some o.capath then some (o.cacert, o.capath) else none

-- The two halves of an identity.
unfoldable pub certificate_of : Option (List ℕ × List ℕ) → Option (List ℕ)
certificate_of none = none
certificate_of (some i) = some i.0

unfoldable pub key_of : Option (List ℕ × List ℕ) → Option (List ℕ)
key_of none = none
key_of (some i) = some i.1

-- The certificate's file and the key's have been read, and belong together.
abbrev pub IdentityIsGood : OpenSsl → Option (List ℕ × List ℕ) → Type 0
IdentityIsGood a none = Unit
IdentityIsGood a (some x) =
    (a.certificate_pem x.0 || a.certificate_asn1 x.0 ≡ true)
    × (a.key_pem x.1 || a.key_asn1 x.1 ≡ true)
    × (a.key_matches x.0 x.1 ≡ true)

-- What OpenSSL answered about the authority: the one that the options name, or the system's.
abbrev pub authority_ok : OpenSsl → TlsOptions → Bool → Bool
authority_ok a o true = a.authority_read o.cacert o.capath
authority_ok a o false = a.system_read

-- The handshake with OpenSSL has taken place, as the options ask for it, and no step before it failed.
pub record IsSecured (a : OpenSsl) (o : TlsOptions) (host : List ℕ) (c : ℕ × Handshake)
    : Type 0 where
  pub shaken : a.connect c.1 ≡ connected c.0
  pub memory_given : a.memory ≡ true
  pub context_given : a.context ≡ true
  pub authority_read : authority_ok a o (is_some o.cacert || is_some o.capath) ≡ true
  pub identity_good : IdentityIsGood a c.1.identity
  pub session_given : a.session ≡ true
  pub name_taken : (o.insecure || a.name_set host) ≡ true
  pub socket_taken : a.socket_set ≡ true
  pub modern : c.1.least_version ≡ (if a.version_set then some tls_1_2 else none)
  pub asked_for : c.1.server_name ≡ (if a.server_name_set host then some host else none)
  pub trusting : c.1.authority ≡ named_authority o
  pub certified : certificate_of c.1.identity ≡ o.cert
  pub keyed : key_of c.1.identity ≡ o.key
  pub verified : c.1.verifies_peer ≡ not o.insecure
  pub named_as : c.1.named ≡ (if o.insecure then none else some host)
  pub exact : c.1.partial_wildcards ≡ o.insecure

set_authority-Makes :
    (a : OpenSsl) (o : TlsOptions) (b : Bool)
    → Makes
        (λ x. (x ≡ (if b then some (o.cacert, o.capath) else none)) × (authority_ok a o b ≡ true))
        (set_authority a o b)
unfolding set_authority
set_authority-Makes a o true = Makes-need _ _ _ (λ e. makes (refl, e))
set_authority-Makes a o false = Makes-need _ _ _ (λ e. makes (refl, e))

set_identity-Makes :
    (a : OpenSsl) (c k : Option (List ℕ))
    → Makes (λ i. (certificate_of i ≡ c) × (key_of i ≡ k) × IdentityIsGood a i) (set_identity a c k)
unfolding set_identity certificate_of key_of
set_identity-Makes a none none = makes (refl, refl, tt)
set_identity-Makes a (some c) none = stops
set_identity-Makes a none (some k) = stops
set_identity-Makes a (some c) (some k) =
    Makes-need _ _ _ λ e. Makes-need _ _ _ λ f. Makes-need _ _ _ λ g. makes (refl, refl, (e, f, g))

set_name-Makes :
    (a : OpenSsl) (insecure : Bool) (host : List ℕ)
    → Makes
        (λ n.
          (n ≡ (if insecure then none else some host))
          × (is_some n ≡ not insecure)
          × ((insecure || a.name_set host) ≡ true))
        (set_name a insecure host)
unfolding set_name is_some
set_name-Makes a true host = makes (refl, refl, refl)
set_name-Makes a false host = Makes-need _ _ _ (λ e. makes (refl, refl, e))

finish-Makes :
    (a : OpenSsl) (h : Handshake) (r : Connected)
    → a.connect h ≡ r
    → Makes (λ c. (c.1 ≡ h) × (a.connect h ≡ connected c.0)) (finish a h r)
unfolding finish
finish-Makes a h (connected ssl) e = makes (refl, e)
finish-Makes a h (not_connected none) e = stops
finish-Makes a h (not_connected (some r)) e = stops

shake-Makes :
    (a : OpenSsl) (h : Handshake)
    → Makes (λ c. (c.1 ≡ h) × (a.connect h ≡ connected c.0) × (a.socket_set ≡ true)) (shake a h)
unfolding shake
shake-Makes a h =
    Makes-need _ _ _
      λ e. Makes-weaken _ _ (finish-Makes a h (a.connect h) refl) (λ c k. (k.0, k.1, e))

not-not : (b : Bool) → not (not b) ≡ b
not-not true = refl
not-not false = refl

shake-IsSecured :
    (a : OpenSsl) (o : TlsOptions) (host : List ℕ)
    (authority : Option (Option (List ℕ) × Option (List ℕ))) (identity : Option (List ℕ × List ℕ))
    (named : Option (List ℕ))
    → (a.memory ≡ true) × (a.context ≡ true) × (a.session ≡ true)
    → (authority ≡ named_authority o)
      × (authority_ok a o (is_some o.cacert || is_some o.capath) ≡ true)
    → (certificate_of identity ≡ o.cert) × (key_of identity ≡ o.key) × IdentityIsGood a identity
    → (named ≡ (if o.insecure then none else some host))
      × (is_some named ≡ not o.insecure)
      × ((o.insecure || a.name_set host) ≡ true)
    → Makes (IsSecured a o host) (shake a (handshake_of a authority identity host named))
unfolding handshake_of
shake-IsSecured a o host authority identity named hg ha hi hn =
    Makes-weaken _ _ (shake-Makes a (handshake_of a authority identity host named)) (λ c hc.
      record {
        memory_given = hg.0;
        context_given = hg.1;
        session_given = hg.2;
        authority_read = ha.1;
        identity_good = rw hc.0 hi.2;
        name_taken = hn.2;
        socket_taken = hc.2;
        shaken = ap a.connect hc.0 ∙ hc.1;
        modern = ap (λ (h : Handshake). h.least_version) hc.0;
        asked_for = ap (λ (h : Handshake). h.server_name) hc.0;
        trusting = ap (λ (h : Handshake). h.authority) hc.0 ∙ ha.0;
        certified = ap (λ (h : Handshake). certificate_of h.identity) hc.0 ∙ hi.0;
        keyed = ap (λ (h : Handshake). key_of h.identity) hc.0 ∙ hi.1;
        verified = ap (λ (h : Handshake). h.verifies_peer) hc.0 ∙ hn.1;
        named_as = ap (λ (h : Handshake). h.named) hc.0 ∙ hn.0;
        exact = ap (λ (h : Handshake). h.partial_wildcards) hc.0 ∙ ap not hn.1 ∙ not-not o.insecure;
      })

-- Whatever OpenSSL answers, a connection that is opened has made the handshake that its options ask
-- for, and OpenSSL took every step that is checked: the authority that is named, or the system's, was
-- read; the peer is verified against it and has to bear the host as its name, which was taken, with no
-- partial wildcard, unless that is switched off; and with a certificate and a key that were read and
-- belong together, or with neither. It is TLS 1.2 or later, and the host is the name that is asked
-- for, where OpenSSL took these two.
pub tls_open-IsSecured :
    (a : OpenSsl) (o : TlsOptions) (host : List ℕ) → Makes (IsSecured a o host) (tls_open a o host)
unfolding tls_open named_authority
tls_open-IsSecured a o host = Makes-need _ _ _ λ m. Makes-need _ _ _ λ x.
    Makes-then _ (set_authority-Makes a o (is_some o.cacert || is_some o.capath)) λ authority ha.
      Makes-then _ (set_identity-Makes a o.cert o.key) λ identity hi. Makes-need _ _ _ λ y.
        Makes-then _ (set_name-Makes a o.insecure host)
          λ named hn. shake-IsSecured a o host authority identity named (m, x, y) ha hi hn
