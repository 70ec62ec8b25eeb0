-- ===== src/Zeytun/Pages.antt =====
-- Reading a response, in client/zeytun.c: `zt_conn` with `zt_read` and `zt_hangup`, `fail`, and
-- `slurp`.
pub mod Slurping
use cocolog.Prelude.{
  ℕ, zero, suc, ◌+◌, ◌-◌, ◌*◌, ◌^◌, Bool, true, false, ◌&&◌, ◌||◌, not, Option, none, some, List,
  [], ◌∷◌, ◌++◌, text, length, take, drop, min, ltb, leb, ◌==◌, if◌then◌else◌,
}
use cocolog.World.{Errno, eintr}
use cocolog.Errors.{c_string}
use cocolog.Tls.{starts}
use cocolog.Socket.{is_eintr}

-- What the next `recv` or `SSL_read` comes to: `piece k` is at most k + 1 bytes of what is coming.
pub data Read : Type 0 where
  piece : ℕ → Read
  closes : Read
  breaks : Errno → Read

-- One `send` or `SSL_write`: `takes k` accepts k + 1 bytes, or all if fewer are offered.
pub data Write : Type 0 where
  takes : ℕ → Write
  takes_none : Write
  stops : Errno → Write

-- `zt_conn`, where `secure` says that `tls` is set, with the caller's message, what the server has
-- still to send, the answers of the writes, the reads, and `malloc` and `realloc`; behind
-- the end of these a write takes all and the allocator succeeds.
pub record Page : Type 0 where
  pub fd : Option ℕ
  pub secure : Bool
  pub err : List ℕ
  pub errcap : ℕ
  pub coming : List ℕ
  pub reads : List Read
  pub writes : List Write
  pub memory : List Bool
  pub sent : List ℕ
  pub closed : List ℕ
  pub sessions_ended : ℕ

-- How a call ends: with a value, with the answer 0 or null, or not at all.
pub data Fetched (A : Type 0) : Type 0 where
  fetched : A → Page → Fetched A
  failed : Page → Fetched A
  waiting : Fetched A

-- `fail`
unfoldable pub worded : List ℕ → Option (List ℕ) → List ℕ
worded what none = what
worded what (some detail) = what ++ (text ": " ++ detail)

unfoldable pub refuse : {A : Type 0} → List ℕ → Option (List ℕ) → Page → Fetched A
refuse what detail p =
    failed
      (if p.errcap == 0 then p else record p { err = take (p.errcap - 1) (worded what detail) })

-- `zt_hangup`
unfoldable pub close_fd : Option ℕ → Page → Page
close_fd none p = p
close_fd (some d) p = record p { fd = none; closed = d ∷ p.closed }

unfoldable pub end_tls : Page → Page
end_tls p =
    if p.secure then record p { secure = false; sessions_ended = p.sessions_ended + 1 } else p

unfoldable pub hangup : Page → Page
hangup p = let t : Page = end_tls p in close_fd t.fd t

-- `strstr`: where `pattern` begins first.
unfoldable pub find_text : List ℕ → List ℕ → Option ℕ
find_text pattern [] = if starts pattern [] then some 0 else none
find_text pattern (c ∷ s) =
    let rest = find_text pattern s in
    if starts pattern (c ∷ s) then some 0 else elim rest [ none ↦ none | some i ↦ some (suc i) ]

-- `strtol(s, NULL, 10)`: `none` is a negative number, and a large one is cut to `LONG_MAX`.
unfoldable pub is_space : ℕ → Bool
is_space c = (c == 32) || (leb 9 c && leb c 13)

unfoldable pub digits_from : ℕ → List ℕ → ℕ
digits_from n [] = n
digits_from n (c ∷ s) =
    let rest = digits_from (10 * n + (c - 48)) s in if leb 48 c && leb c 57 then rest else n

unfoldable pub negated : ℕ → Option ℕ
negated zero = some 0
negated (suc n) = none

unfoldable pub signed : List ℕ → Option ℕ
signed [] = some 0
signed (c ∷ s) =
    if c == 45
    then negated (digits_from 0 s)
    else some (min (2 ^ 63 - 1) (if c == 43 then digits_from 0 s else digits_from 0 (c ∷ s)))

unfoldable pub strtol : List ℕ → Option ℕ
strtol [] = some 0
strtol (c ∷ s) = let rest = strtol s in if is_space c then rest else signed (c ∷ s)

-- The text behind the first colon, and the length it says.
unfoldable pub after_colon : List ℕ → Option ℕ
after_colon [] = none
after_colon (c ∷ s) = let rest = after_colon s in if c == 58 then strtol s else rest

unfoldable pub length_at : List ℕ → Option ℕ → Option ℕ
length_at s none = none
length_at s (some i) = after_colon (drop (i + 2) s)

unfoldable pub either : Option ℕ → Option ℕ → Option ℕ
either none o = o
either (some i) o = some i

unfoldable pub content_length_of : List ℕ → Option ℕ
content_length_of s = length_at s (
    either (find_text (13 ∷ 10 ∷ text "Content-Length:") s)
      (find_text (13 ∷ 10 ∷ text "content-length:") s))

-- `header_len` and `content_length`; the second is none where the source has a negative number.
pub record Head : Type 0 where
  pub header_len : ℕ
  pub content_length : Option ℕ

unfoldable pub found_head : List ℕ → Head → Option ℕ → Head
found_head s h none = h
found_head s h (some i) = record { header_len = i + 4; content_length = content_length_of s }

-- The header is looked for until it is there, in what `strstr` sees of the buffer.
unfoldable pub look : List ℕ → Head → Head
look buf h =
    if h.header_len == 0
    then found_head (c_string buf) h (find_text (13 ∷ 10 ∷ 13 ∷ 10 ∷ []) (c_string buf))
    else h

unfoldable pub reaches : ℕ → ℕ → Option ℕ → Bool
reaches len header none = false
reaches len header (some n) = ltb 0 header && leb (header + n) len

unfoldable pub is_complete : ℕ → Head → Bool
is_complete len h = reaches len h.header_len h.content_length

-- `while (len + 4096 > ncap) ncap *= 2;`, of which as many rounds as `len` are enough.
unfoldable pub double_until : ℕ → ℕ → ℕ → ℕ
double_until zero len ncap = ncap
double_until (suc fuel) len ncap =
    let more = double_until fuel len (ncap * 2) in if ltb ncap (len + 4096) then more else ncap

unfoldable pub grown : ℕ → ℕ → ℕ
grown len cap = if ltb cap (len + 4096) then double_until len len (cap * 2) else cap

unfoldable pub memory_for : List Bool → Bool
memory_for [] = true
memory_for (b ∷ m) = b

-- One `malloc`, or one `realloc` if the buffer has to grow.
unfoldable pub used : Page → Page
used p = record p { memory = drop 1 p.memory }

unfoldable pub room_made : ℕ → ℕ → Page → Page
room_made len cap p = if ltb cap (len + 4096) then used p else p

unfoldable pub has_room : ℕ → ℕ → Page → Bool
has_room len cap p = not (ltb cap (len + 4096)) || memory_for p.memory

-- The bytes of one read, into a room of `n`.
unfoldable pub arriving_now : ℕ → ℕ → List ℕ → List ℕ
arriving_now k n coming = take (min (suc k) n) coming

unfoldable pub taken_off : ℕ → ℕ → Page → Page
taken_off k n p = record p { coming = drop (min (suc k) n) p.coming }

unfoldable pub next_reads : List Read → Page → Page
next_reads r p = record p { reads = r }

-- The loop of `slurp`, with the buffer's bytes and its capacity. A read when nothing is coming waits;
-- on a session any stop is the answer 0.
unfoldable pub slurp_loop :
    (Errno → List ℕ) → List Read → List ℕ → ℕ → Head → Page → Fetched (List ℕ)
slurp_loop strerror [] buf cap h p =
    if is_complete (length buf) h
    then fetched buf p
    else if has_room (length buf) cap p
    then waiting
    else refuse (text "out of memory") none (room_made (length buf) cap p)
slurp_loop strerror (piece k ∷ r) buf cap h p =
    let ncap = grown (length buf) cap in
    let q : Page = next_reads r (room_made (length buf) cap p) in
    let bytes = arriving_now k (ncap - length buf - 1) p.coming in
    let rest =
      slurp_loop strerror r (buf ++ bytes) ncap (look (buf ++ bytes) h)
        (taken_off k (ncap - length buf - 1) q) in
    if is_complete (length buf) h
    then fetched buf p
    else if has_room (length buf) cap p
    then (if length p.coming == 0 then waiting else rest)
    else refuse (text "out of memory") none (room_made (length buf) cap p)
slurp_loop strerror (closes ∷ r) buf cap h p =
    if is_complete (length buf) h
    then fetched buf p
    else if has_room (length buf) cap p
    then fetched buf (next_reads r (room_made (length buf) cap p))
    else refuse (text "out of memory") none (room_made (length buf) cap p)
slurp_loop strerror (breaks e ∷ r) buf cap h p =
    let q : Page = next_reads r (room_made (length buf) cap p) in
    let again = slurp_loop strerror r buf (grown (length buf) cap) h q in
    if is_complete (length buf) h
    then fetched buf p
    else if has_room (length buf) cap p
    then (if p.secure
        then fetched buf q
        else if is_eintr e
        then again
        else refuse (text "read failed") (some (strerror e)) q)
    else refuse (text "out of memory") none (room_made (length buf) cap p)

abbrev pub no_head : Head
no_head = record { header_len = 0; content_length = none }

unfoldable pub slurp : (Errno → List ℕ) → Page → Fetched (List ℕ)
slurp strerror p =
    if memory_for p.memory
    then slurp_loop strerror p.reads [] 8192 no_head (used p)
    else refuse (text "out of memory") none (used p)
