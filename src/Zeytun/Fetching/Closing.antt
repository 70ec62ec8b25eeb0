-- ===== src/Zeytun/Fetching/Closing.antt =====
-- What `zt_hangup` and the failures of `zt_get2`, in client/zeytun.c, leave open.
use cocolog.Prelude.{
  ℕ, ◌+◌, ◌≡◌, refl, ◌∙◌, inl, inr, Bool-cases, Bool, true, false, Option, none, some, List,
  if◌then◌else◌, ◌==◌,
}
use cocolog.Zeytun.Pages.{
  Page, Fetched, fetched, failed, waiting, refuse, close_fd, end_tls, hangup, used, memory_for,
}
use cocolog.Socket.Descriptors.{in_all}
use cocolog.Zeytun.Fetching.{copy_body, behind_head, is_success, with_status}

-- No socket is open and no session is kept.
pub record IsIdle (p : Page) : Type 0 where
  pub idle_fd : p.fd ≡ none
  pub idle_tls : p.secure ≡ false

-- Nor is one left: `cl` are the descriptors that have been closed, the last first.
pub record IsLeft (cl : List ℕ) (p : Page) : Type 0 where
  pub no_fd : p.fd ≡ none
  pub no_tls_kept : p.secure ≡ false
  pub all_closed : p.closed ≡ cl

-- However the call ends.
pub data Closes {A : Type 0} (cl : List ℕ) : Fetched A → Type 0 where
  with_value : {a : A} {p : Page} → IsLeft cl p → Closes cl (fetched a p)
  with_failure : {p : Page} → IsLeft cl p → Closes cl (failed p)
  without_end : Closes cl waiting

-- Once its descriptor is closed, `cl` will be.
abbrev pub Owes : List ℕ → Page → Type 0
Owes cl p = in_all p.fd p.closed ≡ cl

pub close_fd-none : (o : Option ℕ) (p : Page) → p.fd ≡ o → (close_fd o p).fd ≡ none
unfolding close_fd
close_fd-none none p e = e
close_fd-none (some d) p e = refl

pub close_fd-secure : (o : Option ℕ) (p : Page) → (close_fd o p).secure ≡ p.secure
unfolding close_fd
close_fd-secure none p = refl
close_fd-secure (some d) p = refl

pub close_fd-closed :
    (o : Option ℕ) (p : Page) → p.fd ≡ o → (close_fd o p).closed ≡ in_all p.fd p.closed
unfolding close_fd in_all
close_fd-closed none p e = rw e refl
close_fd-closed (some d) p e = rw e refl

pub Closes-if :
    {A : Type 0} {cl : List ℕ} (b : Bool) (x y : Fetched A)
    → Closes cl x
    → Closes cl y
    → Closes cl (if b then x else y)
Closes-if true x y h k = h
Closes-if false x y h k = k

pub tls_ended :
    (b : Bool) (p : Page)
    → p.secure ≡ b
    → (if b then record p { secure = false; sessions_ended = p.sessions_ended + 1 } else p).secure
      ≡ false
tls_ended true p e = refl
tls_ended false p e = e

pub end_tls-over : (p : Page) → (end_tls p).secure ≡ false
unfolding end_tls
end_tls-over p = tls_ended p.secure p refl

pub end_tls-Owes : {cl : List ℕ} (p : Page) → Owes cl p → Owes cl (end_tls p)
unfolding end_tls
end_tls-Owes p o = elim (Bool-cases p.secure) [ inl h ↦ rw h o | inr h ↦ rw h o ]

pub hangup-IsLeft : {cl : List ℕ} (p : Page) → Owes cl p → IsLeft cl (hangup p)
unfolding hangup
hangup-IsLeft p o = record {
  all_closed = close_fd-closed (end_tls p).fd (end_tls p) refl ∙ end_tls-Owes p o;
  no_fd = close_fd-none (end_tls p).fd (end_tls p) refl;
  no_tls_kept = close_fd-secure (end_tls p).fd (end_tls p) ∙ end_tls-over p;
}

pub IsLeft-if :
    {cl : List ℕ} (b : Bool) (p q : Page)
    → IsLeft cl p
    → IsLeft cl q
    → IsLeft cl (if b then p else q)
IsLeft-if true p q h k = h
IsLeft-if false p q h k = k

pub refuse-Closes :
    {A : Type 0} {cl : List ℕ} (what : List ℕ) (detail : Option (List ℕ)) (p : Page)
    → IsLeft cl p
    → Closes cl (refuse {A = A} what detail p)
unfolding refuse
refuse-Closes what detail p h = with_failure (
    IsLeft-if (p.errcap == 0) _ _ h
      (record { no_fd = h.no_fd; no_tls_kept = h.no_tls_kept; all_closed = h.all_closed }))

pub copy_body-Closes :
    {cl : List ℕ} (body : List ℕ) (p : Page) → IsLeft cl p → Closes cl (copy_body body p)
unfolding copy_body used
copy_body-Closes body p h =
    Closes-if (memory_for p.memory) _ _
      (with_value
        (record { no_fd = h.no_fd; no_tls_kept = h.no_tls_kept; all_closed = h.all_closed }))
      (refuse-Closes _ none _
        (record { no_fd = h.no_fd; no_tls_kept = h.no_tls_kept; all_closed = h.all_closed }))

pub behind_head-Closes :
    {cl : List ℕ} (raw : List ℕ) (o : Option ℕ) (p : Page)
    → IsLeft cl p
    → Closes cl (behind_head raw o p)
unfolding behind_head
behind_head-Closes raw none p h = refuse-Closes _ none p h
behind_head-Closes raw (some i) p h = copy_body-Closes _ p h

pub with_status-Closes :
    {cl : List ℕ} (raw : List ℕ) (o : Option ℕ) (p : Page)
    → IsLeft cl p
    → Closes cl (with_status raw o p)
unfolding with_status
with_status-Closes raw none p h = refuse-Closes _ none p h
with_status-Closes raw (some k) p h =
    Closes-if (is_success _) _ _ (behind_head-Closes raw _ p h) (refuse-Closes _ (some _) p h)
