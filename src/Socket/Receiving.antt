-- ===== src/Socket/Receiving.antt =====
-- `rd` on a connection in working order: it hands out the next bytes of the stream.
use cocolog.Prelude.{
  ℕ, ◌+◌, ◌-◌, ◌≤◌, ◌<◌, ◌≡◌, refl, sym, ap, ◌∙◌, List, [], ◌∷◌, ◌++◌, append-nil, append_assoc,
  arith, length, take, drop, take_inside, drop_inside, take_beyond, drop_beyond, drop-drop,
  length-append, leb_cases, Bool-cases, inl, inr,
}
use cocolog.World.{Reply, got, stopped}
use cocolog.State.{State, Action, Result, ok, ◌>>=◌}
use cocolog.Socket.{ahead, consume, arrive, in_hand, retries_recv, receive, rd}
use cocolog.Socket.Ready.{IsReady, IsReady-frame, arriving, unread, written, frame, opened}
use cocolog.Socket.Flushing.{after_sending, flush_out-ready}

-- A result that is the `n` bytes `bs` of the stream, with `rest` to come.
pub record HasRead (s : State) (bs rest : List ℕ) (r : Result (List ℕ)) : Type 0 where
  pub post : State
  pub runs : r ≡ ok bs post
  pub reading : unread post ≡ rest
  pub stream : written post ≡ written s
  pub ready : IsReady post
  pub same : frame post ≡ frame s

-- After a flush and an arrival.
abbrev filled : List ℕ → List Reply → State → State
filled bs r s =
    let t : State = after_sending s.conn.out [] s in
    record t { conn = record t.conn { inb = bs; pin = 0 }; world = record t.world { replies = r } }

IsReady-filled : (bs : List ℕ) (r : List Reply) {s : State} → IsReady s → IsReady (filled bs r s)
IsReady-filled bs r h = IsReady-frame h refl refl

IsReady-consume : (n : ℕ) {s : State} → IsReady s → IsReady (consume n s)
unfolding consume
IsReady-consume n h = IsReady-frame h refl h.willing

-- What is consumed of the buffer is gone from the stream.
unread-consume :
    (n : ℕ) (s : State) → n ≤ length (ahead s.conn) → unread (consume n s) ≡ drop n (unread s)
unfolding consume
unread-consume n s h =
    ap (λ (l : List ℕ). l ++ arriving s.conn.tls s.world.replies)
      (sym (drop-drop s.conn.pin n (s.conn.pin + n) s.conn.inb refl))
    ∙ sym (drop_inside n (ahead s.conn) (arriving s.conn.tls s.world.replies) h)

-- The same result from a state that differs in what reading may change, at equal bytes.
HasRead-from :
    {s t : State} {bs bs' rest rest' : List ℕ} {r : Result (List ℕ)}
    → written t ≡ written s
    → frame t ≡ frame s
    → bs ≡ bs'
    → rest ≡ rest'
    → HasRead t bs rest r
    → HasRead s bs' rest' r
HasRead-from w f e e' h = record {
  post = h.post;
  runs = h.runs ∙ ap (λ (l : List ℕ). ok l h.post) e;
  reading = h.reading ∙ e';
  stream = h.stream ∙ w;
  ready = h.ready;
  same = h.same ∙ f;
}

-- One round of the loop, given what the rounds after it do when this one empties the buffer.
in_hand-reads :
    (m : ℕ) (acc : List ℕ) (more : ℕ → List ℕ → Action (List ℕ)) (s : State)
    → IsReady s
    → (length (ahead s.conn) < m
        → HasRead
            (consume (length (ahead s.conn)) s)
            ((acc ++ ahead s.conn)
              ++ take (m - length (ahead s.conn)) (arriving s.conn.tls s.world.replies))
            (drop (m - length (ahead s.conn)) (arriving s.conn.tls s.world.replies))
            (more
              (m - length (ahead s.conn))
              (acc ++ ahead s.conn)
              (consume (length (ahead s.conn)) s)))
    → HasRead s (acc ++ take m (unread s)) (drop m (unread s)) (in_hand m acc more s)
unfolding in_hand
in_hand-reads m acc more s h rest = elim (leb_cases m (length (ahead s.conn))) [
  | inl (le, e) ↦ rw e (record {
    post = consume m s;
    runs = ap (λ (l : List ℕ). ok (acc ++ l) (consume m s)) (sym (take_inside m _ _ le));
    reading = unread-consume m s le;
    stream = unfold consume in refl;
    ready = IsReady-consume m h;
    same = unfold consume in refl;
  })
  | inr (lt, e) ↦ rw e (
      HasRead-from (unfold consume in refl) (unfold consume in refl)
        (append_assoc acc _ _
          ∙ ap (λ (l : List ℕ). acc ++ l) (sym (take_beyond m (ahead s.conn) _ (omega arith))))
        (sym (drop_beyond m (ahead s.conn) _ (omega arith))) (rest lt))
]

-- The loop from where nothing is in hand, by induction on the answers of the kernel.
receive-reads :
    (r : List Reply) (m : ℕ) (acc : List ℕ) (s : State)
    → IsReady s
    → 0 < m
    → m ≤ length (arriving s.conn.tls r)
    → HasRead s
        (acc ++ take m (arriving s.conn.tls r))
        (drop m (arriving s.conn.tls r))
        (receive r m acc s)
unfolding receive arriving ◌>>=◌ arrive
receive-reads [] m acc s h pos le = absurd (omega arith)
receive-reads (got b bs ∷ r) m acc s h pos le =
    let u : State = filled (b ∷ bs) r s in
    rw (flush_out-ready s h) (
      HasRead-from (append-nil (written s)) refl refl refl (
        in_hand-reads m acc (receive r) u (IsReady-filled (b ∷ bs) r h) λ lt.
          receive-reads r _ _ _ (IsReady-consume _ (IsReady-filled (b ∷ bs) r h)) (omega arith)
            (unfold consume in omega (arith, length-append (b ∷ bs) (arriving s.conn.tls r)))))
receive-reads (stopped st ∷ r) m acc s h pos le =
    rw (flush_out-ready s h) (elim (Bool-cases (retries_recv s.conn.tls st)) [
      | inl again ↦ rw again (
          HasRead-from (append-nil (written s)) refl refl refl
            (receive-reads r m acc (filled [] r s) (IsReady-filled [] r h) pos (rw again at le)))
      | inr over ↦ absurd (omega (arith, rw over at le))
    ])

-- `rd` hands out the next `n` bytes of the stream, and leaves the rest of it in order.
pub rd-reads :
    (n : ℕ) (s : State)
    → IsReady s
    → n ≤ length (unread s)
    → HasRead s (take n (unread s)) (drop n (unread s)) (rd n s)
unfolding rd
rd-reads n s h le = rw (opened h) (
    in_hand-reads n [] (receive s.world.replies) s h λ lt.
      receive-reads s.world.replies _ _ _ (IsReady-consume _ h) (omega arith) (
        unfold consume in
        omega (arith, length-append (ahead s.conn) (arriving s.conn.tls s.world.replies))))
