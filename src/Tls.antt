-- ===== src/Tls.antt =====
-- client/tls.c: the session of a secure connection, and why it last stopped.
pub mod Opening
pub mod Securing
use cocolog.Prelude.{
  ℕ, zero, suc, Bool, true, false, Option, none, some, List, [], ◌∷◌, ◌++◌, text, take, ◌==◌, ◌&&◌,
  if◌then◌else◌,
}
use cocolog.World.{Errno, other_errno, SslError, ssl_none, zero_return, syscall, ssl_fault, Stop}

-- `struct zt_tls`; the two OpenSSL objects are one opaque handle.
pub record ZtTls : Type 0 where
  pub ssl : ℕ
  pub why : List ℕ

-- `why` is `char[256]`, and `snprintf` cuts what is longer.
abbrev pub fits_why : List ℕ → List ℕ
fits_why = take 255

-- Does `s` begin with `p`?
unfoldable pub starts : List ℕ → List ℕ → Bool
starts [] s = true
starts (c ∷ p) [] = false
starts (c ∷ p) (d ∷ s) = (c == d) && starts p s

-- `strstr(s, p) != NULL`
unfoldable pub contains : List ℕ → List ℕ → Bool
contains p [] = starts p []
contains p (c ∷ s) = let rest = contains p s in if starts p (c ∷ s) then true else rest

unfoldable pub reason_text : List ℕ → List ℕ
unfolding contains
reason_text r =
    if contains (text "certificate required") r
    then fits_why (r ++ text " -- this server wants a client certificate: --cert and --key")
    else fits_why r

or_unnamed : Option (List ℕ) → List ℕ
or_unnamed none = text "the TLS session failed"
or_unnamed (some r) = r

-- `errno != 0`: the two named errors are not 0.
is_set : Errno → Bool
is_set (other_errno zero) = false
is_set _ = true

ended : (Errno → List ℕ) → SslError → Errno → List ℕ
ended strerror ssl_none e = []
ended strerror syscall e =
    if is_set e then fits_why (strerror e) else fits_why (text "the TLS session ended unexpectedly")
ended strerror _ e = fits_why (text "the TLS session ended unexpectedly")

note_text : (Errno → List ℕ) → SslError → Stop → List ℕ
unfolding reason_text or_unnamed is_set ended
note_text strerror zero_return s = []
note_text strerror ssl_fault s =
    if s.ssl_queued then reason_text (or_unnamed s.ssl_reason) else ended strerror ssl_fault s.errno
note_text strerror e s = ended strerror e s.errno

-- `tls_note`: what the handle keeps about an SSL call that stopped.
unfoldable pub tls_note : (Errno → List ℕ) → Stop → ZtTls → ZtTls
unfolding note_text
tls_note strerror s t = record t { why = note_text strerror s.ssl_error s }

say_why : List ℕ → ℕ → Option (List ℕ)
say_why [] cap = none
say_why (c ∷ cs) zero = none
say_why (c ∷ cs) (suc n) = some (take n (c ∷ cs))

-- `coco_client_tls_why`, into a buffer with room for `cap` bytes; none is the answer 0.
unfoldable pub tls_why : ZtTls → ℕ → Option (List ℕ)
unfolding say_why
tls_why t cap = say_why t.why cap

-- `SSL_write` or `SSL_read`: k + 1 bytes are moved, or none is.
pub data Moved : Type 0 where
  moved : ℕ → Moved
  moved_none : Stop → Moved

-- `coco_client_tls_send`: the count, or none for -1.
unfoldable pub tls_send : (Errno → List ℕ) → Moved → ZtTls → Option ℕ × ZtTls
unfolding tls_note
tls_send strerror (moved k) t = (some (suc k), t)
tls_send strerror (moved_none s) t = (none, tls_note strerror s t)

-- `coco_client_tls_recv`: any stop is the answer 0, and the handle says why.
unfoldable pub tls_recv : (Errno → List ℕ) → Moved → ZtTls → ℕ × ZtTls
unfolding tls_note
tls_recv strerror (moved k) t = (suc k, t)
tls_recv strerror (moved_none s) t = (0, tls_note strerror s t)
