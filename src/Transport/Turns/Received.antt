-- ===== src/Transport/Turns/Received.antt =====
-- The handler reads its file once the read loop waits.
use mathlib.Core.List.{append_assoc}
use peer_store.Prelude.{
  ℕ, zero, suc, ◌+◌, ◌≤◌, ◌≡◌, ◌≢◌, ◌⊎◌, inl, inr, refl, sym, ap, subst, ◌∙◌, List, [], ◌∷◌, ◌++◌,
  length, take, drop, Bytes, arith, append-nil, take-append-drop, length-drop, length-append,
  take-append_length, drop-append_length,
}
use peer_store.Transport.Turns.{
  waiting, receiving, closed, failed, Conn, Step, peeks_stream, peeks_other, takes, adds, wakes,
  receives, fails, closes, panics, Steps, start, later,
}

-- The handler has read `got`, and `more` of the file is left.
abbrev pub halfway : Bytes → Bytes → Bytes → Conn
halfway got more rest = record {
  wire = more ++ rest;
  count = 1;
  reader = waiting;
  handler = receiving (length more) got;
  payloads = [];
}

-- The handler has returned an error: the read loop waits on.
abbrev pub stopped : Bytes → Conn
stopped rest = record { wire = rest; count = 1; reader = waiting; handler = failed; payloads = [] }

-- How far the connection has come.
pub data Turn (file rest : Bytes) : Conn → Type 0 where
  amid : (got more : Bytes) → got ++ more ≡ file → Turn file rest (halfway got more rest)
  aborted : Turn file rest (stopped rest)
  stored : {c : Conn} → c.handler ≡ closed file → Turn file rest c

module _ {A : Type 0} where
  take_within : (k : ℕ) (xs ys : List A) → k ≤ length xs → take k (xs ++ ys) ≡ take k xs
  unfolding take
  take_within zero xs ys h = refl
  take_within (suc k) [] ys h = absurd (omega arith)
  take_within (suc k) (x ∷ xs) ys h =
      ap (λ (zs : List A). x ∷ zs) (take_within k xs ys (omega arith))

  drop_within : (k : ℕ) (xs ys : List A) → k ≤ length xs → drop k (xs ++ ys) ≡ drop k xs ++ ys
  unfolding drop
  drop_within zero xs ys h = refl
  drop_within (suc k) [] ys h = absurd (omega arith)
  drop_within (suc k) (x ∷ xs) ys h = drop_within k xs ys (omega arith)

-- What the handler reads halfway is a further piece of the file.
reads_on :
    (file rest got more : Bytes) (k left : ℕ)
    → got ++ more ≡ file
    → length more ≡ k + left
    → Turn file rest (record (halfway got more rest) {
      wire = drop k (more ++ rest);
      handler = receiving left (got ++ take k (more ++ rest));
    })
reads_on file rest got more k left e len =
    let more' = drop k more in
    let got' = got ++ take k more in
    let whole : got' ++ more' ≡ file =
      append_assoc got (take k more) more' ∙ ap (λ xs. got ++ xs) (take-append-drop k more) ∙ e in
    let left_over : length more' ≡ left = omega (arith, len, length-drop k more) in
    rw
      (
        take_within k more rest (omega (arith, len)),
        drop_within k more rest (omega (arith, len)),
        ← left_over,
      )
      (amid got' more' whole)

nothing_left : (more : Bytes) → length more ≡ 0 → more ≡ []
nothing_left [] h = refl
nothing_left (b ∷ more) h = absurd (omega arith)

all_read : (file got more : Bytes) → got ++ more ≡ file → length more ≡ 0 → got ≡ file
all_read file got more e h =
    sym (append-nil got) ∙ ap (λ xs. got ++ xs) (sym (nothing_left more h)) ∙ e

halfway_step :
    (file rest got more : Bytes) (d : Conn)
    → got ++ more ≡ file
    → Step (halfway got more rest) d
    → Turn file rest d
halfway_step file rest got more d e (peeks_stream ws r w) = cc r
halfway_step file rest got more d e (peeks_other b ws r w ne) = cc r
halfway_step file rest got more d e (takes k r pos le enough) = cc r
halfway_step file rest got more d e (adds r) = cc r
halfway_step file rest got more d e (wakes r z) = absurd (omega (arith, z))
halfway_step file rest got more d e (receives k left g h pos enough) =
    subst
      (λ x. Turn file rest (record (halfway got more rest) {
        wire = drop k (more ++ rest);
        handler = receiving left (x ++ take k (more ++ rest));
      }))
      (cc h) (reads_on file rest got more k left e (cc h))
halfway_step file rest got more d e (fails g h) = rw (nothing_left more (cc h)) aborted
halfway_step file rest got more d e (closes w g h z) =
    let taken : g ≡ got = cc h in stored (ap closed (taken ∙ all_read file got more e (cc h)))
halfway_step file rest got more d e (panics g h z) = cc z

-- Nothing happens on the connection any more.
aborted_idle : (rest : Bytes) (d : Conn) → ¬ Step (stopped rest) d
aborted_idle rest d (peeks_stream ws r w) = cc r
aborted_idle rest d (peeks_other b ws r w ne) = cc r
aborted_idle rest d (takes k r pos le enough) = cc r
aborted_idle rest d (adds r) = cc r
aborted_idle rest d (wakes r z) = omega (arith, z)
aborted_idle rest d (receives k left g h pos enough) = cc h
aborted_idle rest d (fails g h) = cc h
aborted_idle rest d (closes w g h z) = cc h
aborted_idle rest d (panics g h z) = cc h

stored_step :
    (file rest : Bytes) {c d : Conn} → c.handler ≡ closed file → Step c d → Turn file rest d
stored_step file rest e (peeks_stream ws r w) = stored e
stored_step file rest e (peeks_other b ws r w ne) = stored e
stored_step file rest e (takes k r pos le enough) = stored e
stored_step file rest e (adds r) = stored e
stored_step file rest e (wakes r z) = stored e
stored_step file rest e (receives k left g h pos enough) = cc (e, h)
stored_step file rest e (fails g h) = cc (e, h)
stored_step file rest e (closes w g h z) = cc (e, h)
stored_step file rest e (panics g h z) = cc (e, h)

module _ (file rest : Bytes) where
  Step-Turn : {c d : Conn} → Step c d → Turn file rest c → Turn file rest d
  Step-Turn {d} st (amid got more e) = halfway_step file rest got more d e st
  Step-Turn {d} st aborted = absurd (aborted_idle rest d st)
  Step-Turn st (stored e) = stored_step file rest e st

  Steps-Turn : {c : Conn} → Steps (halfway [] file rest) c → Turn file rest c
  Steps-Turn start = amid [] file refl
  Steps-Turn (later r st) = Step-Turn st (Steps-Turn r)

  abbrev Received : Conn → Type 0
  Received c =
      ((got : Bytes) × (more : Bytes) × (c.handler ≡ receiving (length more) got)
        × (got ++ more ≡ file)
        × (c.wire ≡ more ++ rest)
        × (c.payloads ≡ []))
      ⊎ ((c.handler ≡ failed) × (c.wire ≡ rest) × (c.payloads ≡ []))
      ⊎ (c.handler ≡ closed file)

  Turn-Received : {c : Conn} → Turn file rest c → Received c
  Turn-Received (amid got more e) = inl (got, more, refl, e, refl, refl)
  Turn-Received aborted = inr (inl (refl, refl, refl))
  Turn-Received (stored e) = inr (inr e)

  -- The read loop waits for the end of a stream, nothing of the file has been read and the handler
  -- waits for as many bytes as it has. Whichever way the steps come from there, the handler is in one
  -- of three places: it has read a piece of the file and the rest of the file is unread; it has
  -- returned an error, with the file read and what comes after it unread; or it has stored exactly the
  -- file. In the first two, nothing of the connection has gone to the channel. So it never panics.
  pub stream_received :
      (c : Conn)
      → Steps (halfway [] file rest) c
      → ((got : Bytes) × (more : Bytes) × (c.handler ≡ receiving (length more) got)
          × (got ++ more ≡ file)
          × (c.wire ≡ more ++ rest)
          × (c.payloads ≡ []))
        ⊎ ((c.handler ≡ failed) × (c.wire ≡ rest) × (c.payloads ≡ []))
        ⊎ (c.handler ≡ closed file)
  stream_received c reached = Turn-Received (Steps-Turn reached)

-- The handler reads the rest of its file at once, and CloseStream follows.
abbrev closing : Bytes → Bytes → Conn
closing file rest = record (halfway file [] rest) { count = 0; handler = closed file }

read_rest :
    (file rest got more : Bytes)
    → got ++ more ≡ file
    → Steps (halfway got more rest) (halfway file [] rest)
read_rest file rest got [] e = rw (sym e, append-nil got) start
read_rest file rest got (b ∷ more) e =
    let xs : Bytes = b ∷ more in
    let fits : length xs ≤ length (xs ++ rest) = omega (arith, length-append xs rest) in
    let last : Step (halfway got xs rest) (record (halfway got xs rest) {
      wire = drop (length xs) (xs ++ rest);
      handler = receiving 0 (got ++ take (length xs) (xs ++ rest));
    }) =
      receives (length xs) 0 got (ap (λ n. receiving n got) (omega arith)) (omega arith) fits in
    let left : drop (length xs) (xs ++ rest) ≡ rest = drop-append_length xs rest in
    let read : got ++ take (length xs) (xs ++ rest) ≡ file =
      ap (λ ys. got ++ ys) (take-append_length xs rest) ∙ e in
    subst
      (λ (ws : Bytes). Steps (halfway got xs rest) (record (halfway file [] rest) { wire = ws }))
      left
      (subst
        (λ (g : Bytes).
          Steps (halfway got xs rest)
            (record (halfway g [] rest) { wire = drop (length xs) (xs ++ rest) }))
        read (later start last))

module _ (file rest : Bytes) where
  abbrev Ends : Conn → Type 0
  Ends c = (d : Conn) × Steps c d × (d.handler ≡ closed file)

  Ends-of : {c : Conn} → Turn file rest c → c.handler ≢ failed → Ends c
  Ends-of (amid got more e) ne =
      (closing file rest, later (read_rest file rest got more e) (closes 0 file refl refl), refl)
  Ends-of aborted ne = absurd (ne refl)
  Ends-of {c} (stored e) ne = (c, start, e)

  -- The read loop waits for the end of a stream, nothing of the file has been read and the handler
  -- waits for as many bytes as it has. From wherever the steps lead, unless the handler has returned an
  -- error, further steps lead to where it has stored exactly the file and closed the stream.
  pub stream_ends :
      (c : Conn)
      → Steps (halfway [] file rest) c
      → c.handler ≢ failed
      → (d : Conn) × Steps c d × (d.handler ≡ closed file)
  stream_ends c reached ne = Ends-of (Steps-Turn file rest reached) ne

  stays_aborted : {c d : Conn} → c ≡ stopped rest → Steps c d → d ≡ stopped rest
  stays_aborted e start = e
  stays_aborted {d} e (later r st) =
      absurd (aborted_idle rest d (subst (λ x. Step x d) (stays_aborted e r) st))

  failed_stops : {c : Conn} → Turn file rest c → c.handler ≡ failed → c ≡ stopped rest
  failed_stops (amid got more e) h = cc h
  failed_stops aborted h = refl
  failed_stops (stored e) h = cc (e, h)

  -- The read loop waits for the end of a stream, nothing of the file has been read and the handler
  -- waits for as many bytes as it has. Where the steps lead to an error of the handler, which returns
  -- without CloseStream, nothing changes any more: the read loop waits for good and what the other
  -- side has sent after the file stays unread.
  pub failed_stream_hangs :
      (c d : Conn)
      → Steps (halfway [] file rest) c
      → c.handler ≡ failed
      → Steps c d
      → (d.reader ≡ waiting) × (d.wire ≡ rest) × (d ≡ c)
  failed_stream_hangs c d reached h on =
      let here = failed_stops (Steps-Turn file rest reached) h in
      let there = stays_aborted here on in
      (ap (λ (x : Conn). x.reader) there, ap (λ (x : Conn). x.wire) there, there ∙ sym here)
