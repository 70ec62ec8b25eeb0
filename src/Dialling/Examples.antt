-- ===== src/Dialling/Examples.antt =====
-- The theorems about opening, dialling and closing at concrete connections.
use cocolog.Prelude.{if◌then◌else◌, refl, true, false, none, some, List, [], ◌∷◌, text, arith}
use cocolog.World.{World, other_errno, got}
use cocolog.Tls.Opening.{TlsOptions, OpenSsl, connected, tls_open}
use cocolog.Tls.Securing.{Makes, IsSecured, tls_open-IsSecured}
use cocolog.State.{Slot, State}
use cocolog.State.Outcomes.{Ensures, Returns}
use cocolog.Dialling.Opened.{opened_by}
use cocolog.Engine.{ce_of, ce_forget, find_slot}
use cocolog.Engine.Sessions.{Session, IsForgotten, ce_of-Session, ce_forget-IsForgotten}
use cocolog.Dialling.{no_socket, unreachable, reached, addresses, secure, Route, zg_open, close}
use cocolog.Dialling.Connecting.{Opens, zg_open-Opens}
use cocolog.Dialling.Closing.{Released, close-Released}
use cocolog.Samples.{scripted, conn, around, busy}

-- OpenSSL where everything succeeds.
abbrev agreeable : OpenSsl
agreeable = record {
  memory = true;
  context = true;
  version_set = true;
  authority_read = λ f p. true;
  system_read = true;
  certificate_pem = λ c. true;
  certificate_asn1 = λ c. false;
  key_pem = λ k. false;
  key_asn1 = λ k. true;
  key_matches = λ c k. true;
  session = true;
  server_name_set = λ n. true;
  name_set = λ n. true;
  socket_set = true;
  connect = λ h. connected 9;
  queued = none;
}

abbrev with_identity : TlsOptions
with_identity = record {
  cacert = none;
  capath = none;
  cert = some (text "c.pem");
  key = some (text "k.der");
  key_pass = none;
  insecure = false;
}

tls_open-IsSecured_example :
    Makes
      (IsSecured agreeable with_identity (text "host"))
      (tls_open agreeable with_identity (text "host"))
tls_open-IsSecured_example = tls_open-IsSecured agreeable with_identity (text "host")

-- The second of three addresses is reached; the greeting is 258, with a byte behind it.
abbrev route : Route
route = record {
  host = text "host";
  resolved = addresses (no_socket ∷ unreachable 6 ∷ reached 7 ∷ []);
  connect_errno = other_errno 111;
  transport = secure agreeable with_identity;
}

abbrev greeting_world : World
greeting_world = scripted (got 0 (0 ∷ 0 ∷ []) ∷ got 0 (0 ∷ 0 ∷ 1 ∷ 2 ∷ 5 ∷ []) ∷ []) [] []

abbrev before : State
before = around (conn (some 8)) greeting_world

zg_open-Opens_example :
    Ensures
      (Opens
        (if greeting_world.malloc_fails 0
          then greeting_world.closed
          else opened_by route.resolved greeting_world.closed)
        before)
      (λ _. ⊥)
      (zg_open route 256 before)
zg_open-Opens_example = zg_open-Opens route 256 before

close-Released_example : Returns (λ _ t. Released busy t) (λ _. ⊥) (close busy)
close-Released_example = close-Released busy refl

-- Two sessions of one thread.
abbrev two_slots : List Slot
two_slots = record { conn_at = 100; session = 1 } ∷ record { conn_at = 200; session = 2 } ∷ []

abbrev embedded : State
embedded = record busy { slots = two_slots }

ce_of-Session_example : Returns (Session 200 embedded) (λ _. ⊥) (ce_of embedded)
ce_of-Session_example = ce_of-Session 200 embedded (omega arith)

ce_forget-IsForgotten_example :
    Returns
      (λ _ t. IsForgotten 200 (find_slot 100 two_slots) embedded t)
      (λ _. ⊥)
      (ce_forget embedded)
ce_forget-IsForgotten_example = ce_forget-IsForgotten 200 embedded (omega arith)
