-- ===== src/Errors.antt =====
-- `say` and `say2` of client/zigurat.c: a failure leaves its message in the connection.
use cocolog.Prelude.{ℕ, zero, suc, List, [], ◌∷◌, ◌++◌, text, take}
use cocolog.State.{Conn, Action, fail}

-- `err` is `char[512]`, and `snprintf` cuts what is longer.
abbrev pub fits_err : List ℕ → List ℕ
fits_err = take 511

-- What `%s` prints of a buffer: the bytes before the first zero.
unfoldable pub c_string : List ℕ → List ℕ
c_string [] = []
c_string (zero ∷ s) = []
c_string (suc c ∷ s) = suc c ∷ c_string s

unfoldable pub with_err : List ℕ → Conn → Conn
with_err m c = record c { err = fits_err m }

unfoldable pub say : {A : Type 0} → List ℕ → Action A
unfolding with_err
say m s = fail (record s { conn = with_err m s.conn })

unfoldable pub detailed : List ℕ → List ℕ → List ℕ
unfolding c_string
detailed what detail = what ++ (text ": " ++ c_string detail)

unfoldable pub say2 : {A : Type 0} → List ℕ → List ℕ → Action A
unfolding say detailed
say2 what detail = say (detailed what detail)
