-- ===== src/Engine.antt =====
-- Sessions with the embedded engine, in client/zigurat.c: `ce_of`, `ce_forget` and `emb`. The engine
-- itself is a script of answers; what it is asked is kept.
pub mod Sessions
use cocolog.Prelude.{
  ℕ, ◌+◌, Bool, true, false, Option, none, some, List, [], ◌∷◌, text, ◌==◌, if◌then◌else◌,
}
use cocolog.World.{EngineReply, EngineCall, session_new, session_free}
use cocolog.State.{Slot, Action, ok, pure, ◌>>=◌}
use cocolog.Errors.{say}

-- One call of an entry point.
unfoldable pub ask : EngineCall → Action EngineReply
ask call s = ok (s.world.engine s.world.engine_count) (record s {
  world = record s.world {
    engine_calls = call ∷ s.world.engine_calls;
    engine_count = s.world.engine_count + 1;
  };
})

-- One `malloc`: does it answer memory?
unfoldable pub allocate : Action Bool
allocate s =
    ok (if s.world.malloc_fails s.world.mallocs then false else true)
      (record s { world = record s.world { mallocs = s.world.mallocs + 1 } })

unfoldable pub find_slot : ℕ → List Slot → Option ℕ
find_slot c [] = none
find_slot c (l ∷ ls) = if l.conn_at == c then some l.session else find_slot c ls

unfoldable pub add_slot : EngineReply → Action (Option ℕ)
add_slot r s =
    if r.ok
    then ok (some r.number)
        (record s { slots = record { conn_at = s.address; session = r.number } ∷ s.slots })
    else ok none s

unfoldable pub new_slot : Bool → Action (Option ℕ)
new_slot false = pure none
new_slot true = ask session_new >>= add_slot

unfoldable pub make_slot : Action (Option ℕ)
make_slot s = if s.world.engine_linked then (allocate >>= new_slot) s else ok none s

unfoldable pub or_make : Option ℕ → Action (Option ℕ)
or_make (some h) = pure (some h)
or_make none = make_slot

-- `ce_of`: this thread's session for the connection, made on first use.
unfoldable pub ce_of : Action (Option ℕ)
ce_of s = or_make (find_slot s.address s.slots) s

unfoldable pub without_slot : ℕ → List Slot → List Slot
without_slot c [] = []
without_slot c (l ∷ ls) = let rest = without_slot c ls in if l.conn_at == c then ls else l ∷ rest

unfoldable pub free_slot : Option ℕ → Action (Unit {0})
free_slot none = pure tt
free_slot (some h) =
    ask (session_free h) >>= λ _ s. ok tt (record s { slots = without_slot s.address s.slots })

-- `ce_forget`: the session goes away with the connection.
unfoldable pub ce_forget : Action (Unit {0})
ce_forget s = free_slot (find_slot s.address s.slots) s

unfoldable pub no_session : List ℕ
no_session = text "cannot begin an embedded session"

-- `emb`: the engine's refusal in its own words.
unfoldable pub emb : EngineReply → Action EngineReply
emb r = if r.ok then pure r else say r.message

unfoldable pub ask_in : (ℕ → EngineCall) → Option ℕ → Action EngineReply
ask_in call none = say no_session
ask_in call (some h) = ask (call h) >>= emb

-- What every verb does on an embedded connection: find the session, ask, and report a refusal.
unfoldable pub in_session : (ℕ → EngineCall) → Action EngineReply
in_session call = ce_of >>= ask_in call

-- `if (c->embed) { … }`
unfoldable pub by_transport : {A : Type 0} → Action A → Action A → Action A
by_transport embedded wire s = if s.conn.embed then embedded s else wire s
