-- ===== src/Dialling/Opened.antt =====
-- The descriptors that `dial` of client/zigurat.c and of client/zeytun.c opens on its way through the
-- addresses.
use cocolog.Prelude.{ℕ, List, [], ◌∷◌}
use cocolog.Dialling.{Attempt, no_socket, unreachable, reached, Resolved, unresolved, addresses}

-- In front of `c`, the last first: those of the unreachable addresses, and the one that is reached.
unfoldable pub opened : List Attempt → List ℕ → List ℕ
opened [] c = c
opened (no_socket ∷ r) c = opened r c
opened (unreachable d ∷ r) c = opened r (d ∷ c)
opened (reached d ∷ r) c = d ∷ c

unfoldable pub opened_by : Resolved → List ℕ → List ℕ
unfolding opened
opened_by (unresolved m) c = c
opened_by (addresses l) c = opened l c
