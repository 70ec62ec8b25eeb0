-- ===== src/Zeytun/Examples.antt =====
-- The theorems about client/zeytun.c at concrete texts.
use cocolog.Prelude.{
  ℕ, ◌≤◌, ◌<◌, ◌≡◌, none, refl, some, List, [], ◌∷◌, ◌++◌, false, text, length, arith, All,
}
use cocolog.Zeytun.Coding.{store, written, no_room, urlencode, unescape, unescape_round, entity_at}
use cocolog.Zeytun.Coding.Addresses.{
  encoded, decoded, IsPlain, urlencode-fits, urlencode_round_trip,
}
use cocolog.Zeytun.Coding.Entities.{replaced}
use cocolog.Zeytun.Coding.InPlace.{Leaves, unescape-Leaves}
use cocolog.Zeytun.Coding.Escaping.{escaped, unescape-escaped}
use cocolog.World.{eintr, other_errno}
use cocolog.Dialling.{addresses, unreachable, reached, plain}
use cocolog.Zeytun.Pages.{piece, breaks, takes, stops, Page, slurp}
use cocolog.Zeytun.Pages.Slurping.{Slurped, slurp-Slurped}
use cocolog.Zeytun.Fetching.{Net, get, line_end}
use cocolog.Zeytun.Fetching.Answering.{Answers, IsBody, get-Answers}

-- `a b%`, and `<a&b>`.
abbrev spaced : List ℕ
spaced = 97 ∷ 32 ∷ 98 ∷ 37 ∷ []

abbrev marked : List ℕ
marked = 60 ∷ 97 ∷ 38 ∷ 98 ∷ 62 ∷ []

urlencode_runs : urlencode spaced 10 ≡ written (text "a%20b%25")
unfolding urlencode text store
urlencode_runs = refl

urlencode_declines : urlencode spaced 8 ≡ no_room
unfolding urlencode store
urlencode_declines = refl

urlencode-fits_example :
    (length (encoded spaced) < 9 → urlencode spaced 9 ≡ written (encoded spaced))
    × (9 ≤ length (encoded spaced) → urlencode spaced 9 ≡ no_room)
urlencode-fits_example = urlencode-fits spaced 9

urlencode_round_trip_example :
    (urlencode spaced 13 ≡ written (encoded spaced))
    × (decoded (encoded spaced) ≡ spaced)
    × All IsPlain (encoded spaced)
urlencode_round_trip_example =
    urlencode_round_trip spaced 13 (omega arith, (omega arith, (omega arith, (omega arith, tt))))
      (omega arith)

unescape_runs :
    unescape (text "&lt;&x" ++ (0 ∷ [])) ≡ some (text "<&x" ++ (0 ∷ text "&x" ++ (0 ∷ [])), 3)
unfolding unescape unescape_round entity_at text
unescape_runs = refl

unescape-Leaves_example :
    Leaves (replaced marked) (length (marked ++ (0 ∷ []))) (unescape (marked ++ (0 ∷ [])))
unescape-Leaves_example =
    unescape-Leaves marked []
      (omega arith, (omega arith, (omega arith, (omega arith, (omega arith, tt)))))

unescape-escaped_example :
    Leaves marked
      (length (escaped marked ++ (0 ∷ 7 ∷ [])))
      (unescape (escaped marked ++ (0 ∷ 7 ∷ [])))
unescape-escaped_example =
    unescape-escaped marked (7 ∷ [])
      (omega arith, (omega arith, (omega arith, (omega arith, (omega arith, tt)))))

-- A server that is reached at the second address, and answers in three pieces around an interruption.
abbrev net : Net
net = record {
  resolved = addresses (unreachable 3 ∷ reached 4 ∷ []);
  connect_errno = other_errno 111;
  write_errno = other_errno 32;
  strerror = λ e. text "errno";
}

abbrev response : List ℕ
response =
    text "HTTP/1.1 200 OK"
    ++ (line_end ++ (text "Content-Length: 2" ++ (line_end ++ (line_end ++ text "hi"))))

abbrev page : Page
page = record {
  fd = none;
  secure = false;
  err = [];
  errcap = 64;
  coming = response;
  reads = piece 20 ∷ breaks eintr ∷ piece 17 ∷ piece 90 ∷ [];
  writes = takes 5 ∷ stops eintr ∷ [];
  memory = [];
  sent = [];
  closed = [];
  sessions_ended = 0;
}

get-Answers_example :
    Answers (IsBody response) (get net (text "h") (text "80") (text "/") plain page)
get-Answers_example = get-Answers net (text "h") (text "80") (text "/") plain page

slurp-Slurped_example : Slurped response page (slurp net.strerror page)
slurp-Slurped_example = slurp-Slurped net.strerror page
