-- ===== src/Zeytun/Fetching/Answering.antt =====
-- What `zt_get2` answers: the body of a successful response to the whole request.
use cocolog.Prelude.{
  ℕ, ◌+◌, ◌≡◌, refl, sym, ap, ◌∙◌, text, Bool, true, false, Option, none, some, List, [], ◌∷◌, ◌++◌,
  append-nil, append_assoc, take, drop, take-append-drop, length, leb, if◌then◌else◌, inl, inr,
  Bool-cases,
}
use cocolog.Errors.{c_string}
use cocolog.Tls.Opening.{Handshake, Step, made, bad}
use cocolog.Socket.{is_eintr}
use cocolog.Dialling.{
  Attempt, no_socket, unreachable, reached, Resolved, unresolved, addresses, Transport, plain,
  no_tls, secure,
}
use cocolog.Zeytun.Pages.{
  Write, takes, takes_none, stops, Page, Fetched, fetched, failed, waiting, refuse, close_fd,
  hangup, find_text, memory_for, slurp,
}
use cocolog.Zeytun.Pages.Slurping.{Slurped, whole, slurp-Slurped}
use cocolog.Zeytun.Fetching.Status.{HasStatus, is_success-HasStatus}
use cocolog.Zeytun.Fetching.{
  Net, try_all, when_reached, dial_then, keep_tls, secure_then, write_failed, written_on,
  send_request, copy_body, behind_head, is_success, with_status, parsed, exchange, request, get,
}

abbrev blank_line : List ℕ
blank_line = 13 ∷ 10 ∷ 13 ∷ 10 ∷ []

-- `body` stands behind the first blank line of a response whose status is 200.
pub record IsBody (stream body : List ℕ) : Type 0 where
  pub raw : List ℕ
  pub later : List ℕ
  pub begins : raw ++ later ≡ stream
  pub version : ℕ
  pub after_status : List ℕ
  pub status : c_string raw ≡ text "HTTP/1." ++ (version ∷ (text " 200 " ++ after_status))
  pub head : ℕ
  pub at_blank_line : find_text (13 ∷ 10 ∷ 13 ∷ 10 ∷ []) (c_string raw) ≡ some head
  pub behind : body ≡ drop (head + 4) raw

-- What is answered, if anything is.
pub data Answers {A : Type 0} (P : A → Type 0) : Fetched A → Type 0 where
  answered : {a : A} {p : Page} → P a → Answers P (fetched a p)
  not_answered : {p : Page} → Answers P (failed p)
  unending : Answers P waiting

Answers-if :
    {A : Type 0} {P : A → Type 0} (b : Bool) (x y : Fetched A)
    → Answers P x
    → Answers P y
    → Answers P (if b then x else y)
Answers-if true x y h k = h
Answers-if false x y h k = k

refuse-Answers :
    {A : Type 0} {P : A → Type 0} (what : List ℕ) (detail : Option (List ℕ)) (p : Page)
    → Answers P (refuse what detail p)
unfolding refuse
refuse-Answers what detail p = not_answered

copy_body-Answers :
    {P : List ℕ → Type 0} (body : List ℕ) (p : Page) → P body → Answers P (copy_body body p)
unfolding copy_body
copy_body-Answers body p h =
    Answers-if (memory_for p.memory) _ _ (answered h) (refuse-Answers _ none _)

behind_head-Answers :
    (stream raw later : List ℕ) (o : Option ℕ) (p : Page)
    → raw ++ later ≡ stream
    → HasStatus (c_string raw)
    → find_text blank_line (c_string raw) ≡ o
    → Answers (IsBody stream) (behind_head raw o p)
unfolding behind_head HasStatus
behind_head-Answers stream raw later none p b s e = refuse-Answers _ none p
behind_head-Answers stream raw later (some i) p b v e = copy_body-Answers _ p (record {
  raw = raw;
  later = later;
  begins = b;
  version = v.0;
  after_status = v.1;
  status = v.2;
  head = i;
  at_blank_line = e;
  behind = refl;
})

with_status-Answers :
    (stream raw later : List ℕ) (o : Option ℕ) (p : Page)
    → raw ++ later ≡ stream
    → Answers (IsBody stream) (with_status raw o p)
unfolding with_status
with_status-Answers stream raw later none p b = refuse-Answers _ none p
with_status-Answers stream raw later (some k) p b = elim (Bool-cases (is_success (c_string raw))) [
  | inl s ↦ rw s (behind_head-Answers stream raw later _ p b (is_success-HasStatus _ s) refl)
  | inr s ↦ rw s (refuse-Answers _ (some _) p)
]

parsed-Answers :
    (stream : List ℕ) (p : Page) (r : Fetched (List ℕ))
    → Slurped stream p r
    → Answers (IsBody stream) (parsed r)
unfolding parsed
parsed-Answers stream p (fetched raw q) (whole e h) =
    with_status-Answers stream raw q.coming _ (hangup q) e
parsed-Answers stream p (failed q) h = not_answered
parsed-Answers stream p waiting h = unending

-- The request has been sent whole, and nothing has been read.
pub record IsAsked (line : List ℕ) (p q : Page) : Type 0 where
  pub asked : q.sent ≡ p.sent ++ line
  pub to_come : q.coming ≡ p.coming

IsAsked-step : {a b : List ℕ} {p q r : Page} → IsAsked a p q → IsAsked b q r → IsAsked (a ++ b) p r
IsAsked-step {a} {b} {p} h k = record {
  asked = k.asked ∙ ap (λ (l : List ℕ). l ++ b) h.asked ∙ append_assoc p.sent a b;
  to_come = k.to_come ∙ h.to_come;
}

IsAsked-cast : {a b : List ℕ} {p q : Page} → a ≡ b → IsAsked a p q → IsAsked b p q
IsAsked-cast {p = p} {q = q} e h = record {
  asked = h.asked ∙ ap (λ (l : List ℕ). p.sent ++ l) e;
  to_come = h.to_come;
}

written_on-IsAsked : (r : List Write) (bs : List ℕ) (p : Page) → IsAsked bs p (written_on r bs p)
unfolding written_on
written_on-IsAsked r bs p = record { asked = refl; to_come = refl }

-- What follows the request is done on a page where it has been sent.
send_request-Answers :
    {A : Type 0} {P : A → Type 0} (n : Net) (w : List Write) (bs : List ℕ) (k : Page → Fetched A)
    (p : Page)
    → ((q : Page) → IsAsked bs p q → Answers P (k q))
    → Answers P (send_request n w bs k p)
unfolding send_request write_failed
send_request-Answers n w [] k p h = h p (record { asked = sym (append-nil p.sent); to_come = refl })
send_request-Answers n [] (b ∷ bs) k p h = h _ (written_on-IsAsked [] (b ∷ bs) p)
send_request-Answers n (takes i ∷ r) (b ∷ bs) k p h =
    send_request-Answers n r (drop i bs) k _ λ q a. h q (
      IsAsked-cast (ap (λ (l : List ℕ). b ∷ l) (take-append-drop i bs))
        (IsAsked-step (written_on-IsAsked r (b ∷ take i bs) p) a))
send_request-Answers n (takes_none ∷ r) (b ∷ bs) k p h = refuse-Answers _ (some _) _
send_request-Answers n (stops e ∷ r) (b ∷ bs) k p h =
    Answers-if (is_eintr e) _ _
      (send_request-Answers n r (b ∷ bs) k _
        λ q a. h q (IsAsked-step (written_on-IsAsked r [] p) a))
      (refuse-Answers _ (some _) _)

exchange-Answers :
    (n : Net) (line : List ℕ) (stream : List ℕ) (p : Page)
    → p.coming ≡ stream
    → Answers (IsBody stream) (exchange n line p)
unfolding exchange
exchange-Answers n line stream p e = send_request-Answers n p.writes line _ p λ q a.
    rw (sym (a.to_come ∙ e))
      (parsed-Answers q.coming q (slurp n.strerror q) (slurp-Slurped n.strerror q))

close_fd-coming : (o : Option ℕ) (p : Page) → (close_fd o p).coming ≡ p.coming
unfolding close_fd
close_fd-coming none p = refl
close_fd-coming (some d) p = refl

keep_tls-Answers :
    {A : Type 0} {P : A → Type 0} (s : Step (ℕ × Handshake)) (k : Page → Fetched A) (p : Page)
    → ((q : Page) → q.coming ≡ p.coming → Answers P (k q))
    → Answers P (keep_tls s k p)
unfolding keep_tls
keep_tls-Answers (made x) k p h = h _ refl
keep_tls-Answers (bad m) k p h = not_answered

secure_then-Answers :
    {A : Type 0} {P : A → Type 0} (t : Transport) (host : List ℕ) (k : Page → Fetched A) (p : Page)
    → ((q : Page) → q.coming ≡ p.coming → Answers P (k q))
    → Answers P (secure_then t host k p)
unfolding secure_then
secure_then-Answers plain host k p h = h p refl
secure_then-Answers no_tls host k p h = refuse-Answers _ none _
secure_then-Answers (secure a o) host k p h = keep_tls-Answers _ k p h

try_all-coming : (l : List Attempt) (p : Page) → (try_all l p).coming ≡ p.coming
unfolding try_all
try_all-coming [] p = refl
try_all-coming (no_socket ∷ r) p = try_all-coming r p
try_all-coming (unreachable d ∷ r) p = try_all-coming r _
try_all-coming (reached d ∷ r) p = refl

when_reached-Answers :
    {A : Type 0} {P : A → Type 0} (o : Option ℕ) (n : Net) (k : Page → Fetched A) (p : Page)
    → Answers P (k p)
    → Answers P (when_reached o n k p)
unfolding when_reached
when_reached-Answers none n k p h = refuse-Answers _ (some _) p
when_reached-Answers (some d) n k p h = h

dial_then-Answers :
    {A : Type 0} {P : A → Type 0} (r : Resolved) (n : Net) (k : Page → Fetched A) (p : Page)
    → ((q : Page) → q.coming ≡ p.coming → Answers P (k q))
    → Answers P (dial_then r n k p)
unfolding dial_then
dial_then-Answers (unresolved m) n k p h = refuse-Answers _ (some m) p
dial_then-Answers (addresses a) n k p h =
    when_reached-Answers _ n k (try_all a p) (h (try_all a p) (try_all-coming a p))

-- Whatever the resolver, the addresses, OpenSSL, the allocator and the server answer: a body that
-- `zt_get2` answers stands behind the first blank line of a response with the status 200, and that
-- response is the beginning of what the server sent.
pub get-Answers :
    (n : Net) (host service path : List ℕ) (t : Transport) (p : Page)
    → Answers (IsBody p.coming) (get n host service path t p)
unfolding get
get-Answers n host service path t p =
    Answers-if (leb 2048 (length (request host service path))) _ _ (refuse-Answers _ (some path) _)
      (dial_then-Answers n.resolved n _ _
        λ q e. secure_then-Answers t host _ q λ r f. exchange-Answers n _ p.coming r (f ∙ e))
