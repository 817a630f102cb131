-- ===== src/Kcptun/CompStream.antt =====
-- client/main.go and server/main.go: compStream, which compresses the bytes of a connection. The
-- snappy package is a parameter: what it documents of a buffered writer and of a reader at the
-- other end of a connection that keeps order.
use xtaci_kcptun.Prelude.{
  ℕ, ◌≡◌, refl, sym, subst, List, [], ◌∷◌, ◌++◌, append_nil, append_assoc, Bool, true, false,
}

pub record IsPrefix (xs ys : List ℕ) : Type 0 where
  pub rest : List ℕ
  pub whole : ys ≡ xs ++ rest

-- `Writes w sent plain`: the writer was given `plain` and has passed on `sent`, the rest being in its
-- buffer. `decode` is what a reader gives of the bytes that it has.
pub record Snappy : Type 1 where
  pub Writer : Type 0
  pub new_writer : Writer
  pub write : List ℕ → Writer → Writer × List ℕ
  pub flush : Writer → Writer × List ℕ
  pub decode : List ℕ → List ℕ
  pub Writes : Writer → List ℕ → List ℕ → Type 0
  pub starts : Writes new_writer [] []
  pub writes :
      (w : Writer) (p sent plain : List ℕ)
      → Writes w sent plain
      → Writes (write p w).0 (sent ++ (write p w).1) (plain ++ p)
  pub flushes :
      (w : Writer) (sent plain : List ℕ)
      → Writes w sent plain
      → Writes (flush w).0 (sent ++ (flush w).1) plain
  -- after a flush nothing is left in the buffer
  pub flushed :
      (w : Writer) (sent plain : List ℕ)
      → Writes w sent plain
      → decode (sent ++ (flush w).1) ≡ plain
  -- part of what was passed on decodes to a first part of what was written
  pub in_order :
      (w : Writer) (sent plain got : List ℕ)
      → Writes w sent plain
      → IsPrefix got sent
      → IsPrefix (decode got) plain

module _ (snappy : Snappy) where
  open snappy use {Writer, new_writer, write, flush, decode, Writes}

  -- A compStream, and what it has written to its connection.
  pub record CompStream : Type 0 where
    pub w : Writer
    pub sent : List ℕ

  -- `newCompStream`
  abbrev pub new_comp_stream : CompStream
  new_comp_stream = record { w = new_writer; sent = [] }

  -- `Write`: the writer takes the bytes and is flushed.
  unfoldable pub comp_write : List ℕ → CompStream → CompStream
  comp_write p c =
      let (w, first) = write p c.w in
      let (w', rest) = flush w in record { w = w'; sent = c.sent ++ first ++ rest }

  -- `Read`, all of what the bytes read from the connection hold.
  abbrev pub comp_read : List ℕ → List ℕ
  comp_read got = decode got

  -- A connection with compression or without: what the writes put on it, and what is read of it.
  unfoldable pub comp_writes : List (List ℕ) → CompStream → CompStream
  unfolding comp_write
  comp_writes [] c = c
  comp_writes (p ∷ ps) c = comp_writes ps (comp_write p c)

  abbrev pub concat : List (List ℕ) → List ℕ
  concat [] = []
  concat (p ∷ ps) = p ++ concat ps

  -- With `NoComp` the session stands on the connection itself.
  abbrev pub put : Bool → List (List ℕ) → List ℕ
  put true ps = concat ps
  put false ps = (comp_writes ps new_comp_stream).sent

  abbrev pub get : Bool → List ℕ → List ℕ
  get true got = got
  get false got = comp_read got

  comp_write-Writes :
      (p : List ℕ) (c : CompStream) (plain : List ℕ)
      → Writes c.w c.sent plain
      → Writes (comp_write p c).w (comp_write p c).sent (plain ++ p)
        × (decode (comp_write p c).sent ≡ plain ++ p)
  unfolding comp_write
  comp_write-Writes p c plain h =
      let first = snappy.writes c.w p c.sent plain h in
      (
        snappy.flushes (write p c.w).0 (c.sent ++ (write p c.w).1) (plain ++ p) first,
        snappy.flushed (write p c.w).0 (c.sent ++ (write p c.w).1) (plain ++ p) first,
      )

  -- What a compStream is after some writes: its reader has all that was written.
  record Flushed (plain : List ℕ) (c : CompStream) : Type 0 where
    written : Writes c.w c.sent plain
    read : decode c.sent ≡ plain

  comp_writes-Flushed :
      (ps : List (List ℕ)) (plain : List ℕ) (c : CompStream)
      → Flushed plain c
      → Flushed (plain ++ concat ps) (comp_writes ps c)
  unfolding comp_writes
  comp_writes-Flushed [] plain c f = subst (λ x. Flushed x c) (sym (append_nil plain)) f
  comp_writes-Flushed (p ∷ ps) plain c f =
      let (written, read) = comp_write-Writes p c plain f.written in
      subst (λ x. Flushed x (comp_writes ps (comp_write p c))) (append_assoc plain p (concat ps))
        (comp_writes-Flushed ps (plain ++ p) (comp_write p c)
          (record { written = written; read = read }))

  prefix_of_nothing : (xs : List ℕ) → IsPrefix xs [] → xs ≡ []
  prefix_of_nothing [] p = refl
  prefix_of_nothing (x ∷ xs) p = absurd (cc p.whole)

  new-Flushed : Flushed [] new_comp_stream
  new-Flushed = record {
    written = snappy.starts;
    read =
        prefix_of_nothing (decode [])
          (snappy.in_order new_writer [] [] [] snappy.starts (record { rest = []; whole = refl }));
  }

  -- Between two sides that agree on compression, what one reads of the bytes that have come is a first
  -- part of what the other has written, in order; and when all bytes have come, it is all of it, with
  -- nothing held back in a buffer.
  pub get-put :
      (no_comp : Bool) (ps : List (List ℕ)) (got : List ℕ)
      → IsPrefix got (put no_comp ps)
      → IsPrefix (get no_comp got) (concat ps) × (get no_comp (put no_comp ps) ≡ concat ps)
  get-put true ps got h = (h, refl)
  get-put false ps got h =
      let f = comp_writes-Flushed ps [] new_comp_stream new-Flushed in
      (snappy.in_order _ _ (concat ps) got f.written h, f.read)
