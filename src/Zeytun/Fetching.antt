-- ===== src/Zeytun/Fetching.antt =====
-- `dial`, `zt_write`, `zt_get2` and `zt_get` of client/zeytun.c, and its process-wide options.
pub mod Closing
pub mod Leaving
pub mod Status
pub mod Answering
use cocolog.Prelude.{
  ℕ, zero, suc, ◌+◌, ◌-◌, Bool, true, false, ◌&&◌, ◌||◌, not, Option, none, some, List, [], ◌∷◌,
  ◌++◌, text, length, take, drop, min, ltb, leb, ◌==◌, if◌then◌else◌,
}
use cocolog.World.{Errno}
use cocolog.Errors.{c_string}
use cocolog.Tls.{starts}
use cocolog.Tls.Opening.{TlsOptions, OpenSsl, Handshake, Step, made, bad, tls_open}
use cocolog.Socket.{is_eintr}
use cocolog.Dialling.{
  Attempt, no_socket, unreachable, reached, Resolved, unresolved, addresses, Transport, plain,
  no_tls, secure,
}
use cocolog.Zeytun.Pages.{
  Write, takes, takes_none, stops, Page, Fetched, fetched, failed, waiting, refuse, close_fd,
  hangup, find_text, used, memory_for, slurp,
}

-- What the call meets outside of the program.
pub record Net : Type 0 where
  pub resolved : Resolved
  pub connect_errno : Errno
  pub write_errno : Errno
  pub strerror : Errno → List ℕ

-- `strcmp(a, b) == 0`
unfoldable pub same_text : List ℕ → List ℕ → Bool
same_text [] [] = true
same_text [] (b ∷ t) = false
same_text (a ∷ s) [] = false
same_text (a ∷ s) (b ∷ t) = (a == b) && same_text s t

unfoldable pub is_default_port : List ℕ → Bool
is_default_port s =
    same_text s (text "80")
    || (same_text s (text "443") || (same_text s (text "http") || same_text s (text "https")))

abbrev pub line_end : List ℕ
line_end = 13 ∷ 10 ∷ []

-- The request; the port stays out of the name where it is the default.
unfoldable pub host_line : List ℕ → List ℕ → List ℕ
host_line host service = if is_default_port service then host else host ++ (58 ∷ service)

unfoldable pub request : List ℕ → List ℕ → List ℕ → List ℕ
request host service path =
    text "GET "
    ++ (path
        ++ (text " HTTP/1.1"
            ++ (line_end
                ++ (text "Host: "
                    ++ (host_line host service
                        ++ (line_end
                            ++ (text "User-Agent: cocolog/1"
                                ++ (line_end
                                    ++ (text "Accept: text/plain"
                                        ++ (line_end
                                            ++ (text "Connection: close"
                                                ++ (line_end ++ line_end))))))))))))

-- The loop of `dial` over the addresses.
unfoldable pub try_all : List Attempt → Page → Page
try_all [] p = p
try_all (no_socket ∷ r) p = try_all r p
try_all (unreachable d ∷ r) p = try_all r (record p { closed = d ∷ p.closed })
try_all (reached d ∷ r) p = record p { fd = some d }

unfoldable pub when_reached : {A : Type 0} → Option ℕ → Net → (Page → Fetched A) → Page → Fetched A
when_reached none n k p = refuse (text "cannot connect") (some (n.strerror n.connect_errno)) p
when_reached (some d) n k p = k p

-- `dial`, and what is done with its descriptor.
unfoldable pub dial_then : {A : Type 0} → Resolved → Net → (Page → Fetched A) → Page → Fetched A
dial_then (unresolved m) n k p = refuse (text "cannot resolve") (some m) p
dial_then (addresses l) n k p = let q : Page = try_all l p in when_reached q.fd n k q

-- The handshake before the request.
unfoldable pub keep_tls :
    {A : Type 0} → Step (ℕ × Handshake) → (Page → Fetched A) → Page → Fetched A
keep_tls (made h) k p = k (record p { secure = true })
keep_tls (bad m) k p =
    let q : Page = close_fd p.fd p in failed (record q { err = take (p.errcap - 1) m })

unfoldable pub secure_then :
    {A : Type 0} → Transport → List ℕ → (Page → Fetched A) → Page → Fetched A
secure_then plain host k p = k p
secure_then no_tls host k p = refuse (text "this build has no TLS") none (close_fd p.fd p)
secure_then (secure a o) host k p = keep_tls (tls_open a o host) k p

unfoldable pub write_failed : {A : Type 0} → Net → Errno → Page → Fetched A
write_failed n e p = refuse (text "write failed") (some (n.strerror e)) (hangup p)

unfoldable pub written_on : List Write → List ℕ → Page → Page
written_on r bs p = record p { writes = r; sent = p.sent ++ bs }

-- The loop that sends what is left of the request, over the answers of `zt_write`.
unfoldable pub send_request :
    {A : Type 0} → Net → List Write → List ℕ → (Page → Fetched A) → Page → Fetched A
send_request n w [] k p = k p
send_request n [] (b ∷ bs) k p = k (written_on [] (b ∷ bs) p)
send_request n (takes i ∷ r) (b ∷ bs) k p =
    send_request n r (drop i bs) k (written_on r (b ∷ take i bs) p)
send_request n (takes_none ∷ r) (b ∷ bs) k p = write_failed n n.write_errno (written_on r [] p)
send_request n (stops e ∷ r) (b ∷ bs) k p =
    let again = send_request n r (b ∷ bs) k (written_on r [] p) in
    if is_eintr e then again else write_failed n e (written_on r [] p)

-- What is made of a whole response: its body behind the blank line, if its status is 200.
unfoldable pub copy_body : List ℕ → Page → Fetched (List ℕ)
copy_body body p =
    if memory_for p.memory
    then fetched body (used p)
    else refuse (text "out of memory") none (used p)

unfoldable pub behind_head : List ℕ → Option ℕ → Page → Fetched (List ℕ)
behind_head raw none p = refuse (text "no end of headers") none p
behind_head raw (some i) p = copy_body (drop (i + 4) raw) p

-- `strstr(raw, " 200 ") != raw + 8` is false.
unfoldable pub is_at_eight : Option ℕ → Bool
is_at_eight none = false
is_at_eight (some i) = i == 8

unfoldable pub is_success : List ℕ → Bool
is_success s = starts (text "HTTP/1.") s && is_at_eight (find_text (text " 200 ") s)

unfoldable pub with_status : List ℕ → Option ℕ → Page → Fetched (List ℕ)
with_status raw none p = refuse (text "no status line") none p
with_status raw (some k) p =
    if is_success (c_string raw)
    then behind_head raw (find_text (13 ∷ 10 ∷ 13 ∷ 10 ∷ []) (c_string raw)) p
    else refuse (text "the server answered") (some (take (min k 255) raw)) p

unfoldable pub parsed : Fetched (List ℕ) → Fetched (List ℕ)
parsed (fetched raw p) = with_status raw (find_text line_end (c_string raw)) (hangup p)
parsed (failed p) = failed (hangup p)
parsed waiting = waiting

unfoldable pub exchange : Net → List ℕ → Page → Fetched (List ℕ)
exchange n line p = send_request n p.writes line (λ q. parsed (slurp n.strerror q)) p

-- `zt_get2`
unfoldable pub get : Net → List ℕ → List ℕ → List ℕ → Transport → Page → Fetched (List ℕ)
get n host service path tls p =
    let q : Page = record p { err = [] } in
    if leb 2048 (length (request host service path))
    then refuse (text "the request line is too long") (some path) q
    else dial_then n.resolved n (secure_then tls host (exchange n (request host service path))) q

-- `g_tls` and `g_tls_on`, as `coco_client_tls_configure` leaves them, and `zt_get`, which uses them.
unfoldable pub configured : OpenSsl → Bool → Option TlsOptions → Transport
configured a linked none = plain
configured a linked (some o) = if linked then secure a o else no_tls

-- `coco_client_tls_configure_flat`
unfoldable pub flat_options :
    Option (List ℕ)
    → Option (List ℕ)
    → Option (List ℕ)
    → Option (List ℕ)
    → Option (List ℕ)
    → Bool
    → Option TlsOptions
flat_options cacert capath cert key key_pass insecure = some (record {
  cacert = cacert;
  capath = capath;
  cert = cert;
  key = key;
  key_pass = key_pass;
  insecure = insecure;
})

unfoldable pub get_default :
    Net → OpenSsl → Bool → Option TlsOptions → List ℕ → List ℕ → List ℕ → Page → Fetched (List ℕ)
get_default n a linked g host service path p = get n host service path (configured a linked g) p
