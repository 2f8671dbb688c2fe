-- ===== src/Core/NetRead/Lines.antt =====
-- The lines that handle_net_read of src/core/netevent.c finds in what arrives.
use uhub.Prelude.{
  if◌then◌else◌, ◌&&◌, ℕ, ◌<◌, ◌≡◌, ◌≢◌, refl, sym, ap, ◌∙◌, Bool, true, false, List, [], ◌∷◌, ◌++◌,
  ltb, lt→ltb, ◌==◌, length, Bytes, arith, Bool-cases, inl, inr, append_assoc, append-nil, All,
  All-append,
}
use uhub.Core.NetRead.{
  received, would_block, NetRead, read_on, quit_protocol_error, Reader, Scan, refused, ended,
  handle_line, read_lines, keep_rest, handle_net_read,
}

abbrev pub NoNewline : Bytes → Type 0
NoNewline = All (λ c. (c == b'\n') ≡ false)

true≢false : true ≢ false
true≢false e = ground arith

module _ {S : Type 0} (handle : S → Bytes → S × Bool) (max : ℕ) where
  -- The scan goes on with further bytes.
  and_then : Scan S → Bytes → Scan S
  and_then (refused s) ys = refused s
  and_then (ended maxbuf s rest) ys = read_lines handle max maxbuf s rest ys

  read_lines-append :
      (maxbuf : Bool) (s : S) (line xs ys : Bytes)
      → read_lines handle max maxbuf s line (xs ++ ys)
        ≡ and_then (read_lines handle max maxbuf s line xs) ys
  unfolding read_lines and_then
  read_lines-append maxbuf s line [] ys = refl
  read_lines-append maxbuf s line (c ∷ xs) ys = elim (Bool-cases (c == b'\n')) [
    | inr e ↦ rw (e, read_lines) (read_lines-append maxbuf s (line ++ c ∷ []) xs ys)
    | inl e ↦ elim (Bool-cases (handle_line handle max maxbuf s line).1) [
      | inl bad ↦ rw (e, bad, read_lines)
      | inr good ↦ rw (e, good, read_lines) (read_lines-append false _ [] xs ys)
    ]
  ]

  -- Bytes without a newline are added to the current line.
  read_lines-NoNewline :
      (maxbuf : Bool) (s : S) (line l ys : Bytes)
      → NoNewline l
      → read_lines handle max maxbuf s line (l ++ ys)
        ≡ read_lines handle max maxbuf s (line ++ l) ys
  unfolding read_lines
  read_lines-NoNewline maxbuf s line [] ys n = rw (append-nil line)
  read_lines-NoNewline maxbuf s line (c ∷ l) ys (e, n) =
      rw (e, read_lines)
        (read_lines-NoNewline maxbuf s (line ++ c ∷ []) l ys n ∙ rw (append_assoc line (c ∷ []) l))

  Clean : Scan S → Type 0
  Clean (refused s) = Unit
  Clean (ended maxbuf s rest) = NoNewline rest

  read_lines-Clean :
      (maxbuf : Bool) (s : S) (line xs : Bytes)
      → NoNewline line
      → Clean (read_lines handle max maxbuf s line xs)
  unfolding read_lines Clean
  read_lines-Clean maxbuf s line [] n = n
  read_lines-Clean maxbuf s line (c ∷ xs) n = elim (Bool-cases (c == b'\n')) [
    | inr e ↦
        rw (e, read_lines)
          (read_lines-Clean maxbuf s (line ++ c ∷ []) xs (All-append _ line (c ∷ []) n (e, tt)))
    | inl e ↦ elim (Bool-cases (handle_line handle max maxbuf s line).1) [
      | inl bad ↦ rw (e, bad, read_lines) tt
      | inr good ↦ rw (e, good, read_lines) (read_lines-Clean false _ [] xs tt)
    ]
  ]

  abbrev reader : Bytes → Bool → S → Reader S
  reader rest maxbuf s = record { recv_queue = rest; maxbuf = maxbuf; state = s }

  -- If a user that is not within an overlong line reads some bytes, the read ends normally and
  -- no overlong line has begun, then reading the next bytes does what one read of both would
  -- have done.
  pub handle_net_read-append :
      (user : Reader S) (xs ys : Bytes)
      → user.maxbuf ≡ false
      → (handle_net_read handle max user (received xs)).1 ≡ read_on
      → (handle_net_read handle max user (received xs)).0.maxbuf ≡ false
      → handle_net_read handle max (handle_net_read handle max user (received xs)).0 (received ys)
        ≡ handle_net_read handle max user (received (xs ++ ys))
  unfolding handle_net_read keep_rest Clean and_then
  handle_net_read-append user xs ys m ret fits = rw (m) (
      go (read_lines handle max false user.state [] (user.recv_queue ++ xs))
        (read_lines-Clean false user.state [] (user.recv_queue ++ xs) tt) (rw (m) at ret)
        (rw (m) at fits)
      ∙ ap (keep_rest handle max)
          (sym (read_lines-append false user.state [] (user.recv_queue ++ xs) ys))
      ∙ ap (λ t. keep_rest handle max (read_lines handle max false user.state [] t))
          (append_assoc user.recv_queue xs ys))
    where
      go :
          (sc : Scan S)
          → Clean sc
          → (keep_rest handle max sc).1 ≡ read_on
          → (keep_rest handle max sc).0.maxbuf ≡ false
          → handle_net_read handle max (keep_rest handle max sc).0 (received ys)
            ≡ keep_rest handle max (and_then sc ys)
      go (refused s) c ret fits = absurd (ground (arith, ret))
      go (ended true s rest) c ret fits = elim (Bool-cases (ltb (length rest) max)) [
        | inl short ↦ absurd (true≢false (rw (short, keep_rest) at fits))
        | inr long ↦ absurd (true≢false (rw (long, keep_rest) at fits))
      ]
      go (ended false s rest) c ret fits = elim (Bool-cases (ltb (length rest) max)) [
        | inr long ↦ absurd (true≢false (rw (long, keep_rest) at fits))
        | inl short ↦
            rw (short) (ap (keep_rest handle max) (read_lines-NoNewline false s [] rest ys c))
      ]

  abbrev pub unlines : List Bytes → Bytes
  unlines [] = []
  unlines (l ∷ ls) = l ++ b'\n' ∷ unlines ls

  -- A line that is neither empty nor too long is a message.
  abbrev pub handle_one : S → Bytes → S × Bool
  handle_one s l = if ltb 0 (length l) && ltb (length l) max then handle s l else (s, false)

  -- The messages that a list of lines gives, up to one that is refused.
  abbrev pub handle_all : S → List Bytes → S × Bool
  handle_all s [] = (s, false)
  handle_all s (l ∷ ls) =
      let (s', bad) = handle_one s l in elim bad [ true ↦ (s', true) | false ↦ handle_all s' ls ]

  abbrev answer : Bytes → S × Bool → Reader S × NetRead
  answer rest (s, true) = (reader [] false s, quit_protocol_error)
  answer rest (s, false) = (reader rest false s, read_on)

  -- If the buffer of a user that is not within an overlong line and the bytes received are
  -- together some lines, each with its newline, and a beginning of one more that is not too
  -- long, then exactly those lines that are neither empty nor too long are handled, in order, up
  -- to one that is refused; without a refusal the beginning is kept.
  pub handle_net_read-unlines :
      (user : Reader S) (bytes : Bytes) (ls : List Bytes) (rest : Bytes)
      → user.maxbuf ≡ false
      → All NoNewline ls
      → NoNewline rest
      → length rest < max
      → user.recv_queue ++ bytes ≡ unlines ls ++ rest
      → handle_net_read handle max user (received bytes) ≡ answer rest (handle_all user.state ls)
  unfolding handle_net_read keep_rest read_lines handle_line
  handle_net_read-unlines user bytes ls rest m nls nrest short e = rw (m, e) (go ls user.state nls)
    where
      go :
          (ls : List Bytes) (s : S)
          → All NoNewline ls
          → keep_rest handle max (read_lines handle max false s [] (unlines ls ++ rest))
            ≡ answer rest (handle_all s ls)
      go [] s n =
          let whole = read_lines-NoNewline false s [] rest [] nrest in
          rw (rw (append-nil rest) at whole, lt→ltb (length rest) max short, keep_rest, read_lines)
      go (l ∷ ls) s (nl, n) =
          let next = read_lines-NoNewline false s [] l (b'\n' ∷ (unlines ls ++ rest)) nl in
          rw (append_assoc l (b'\n' ∷ unlines ls) rest, next)
            (elim (Bool-cases (handle_one s l).1) [
              | inl bad ↦ rw (bad, read_lines, handle_line, handle_all)
              | inr good ↦ rw (good, read_lines, handle_line, handle_all) (go ls _ n)
            ])

  -- For a user that is not within an overlong line, a read that would block loses the beginning
  -- of a line that is waiting in the buffer: when a line comes in two parts, of which the first
  -- with the buffer is not too long, and such a read happens between them, the second part alone
  -- is handled.
  pub handle_net_read-would_block :
      (user : Reader S) (a b : Bytes)
      → user.maxbuf ≡ false
      → NoNewline (user.recv_queue ++ a)
      → NoNewline b
      → length (user.recv_queue ++ a) < max
      → 0 < max
      → (let started = handle_net_read handle max user (received a) in
          let blocked = handle_net_read handle max started.0 would_block in
          (started ≡ (reader (user.recv_queue ++ a) false user.state, read_on))
          × (handle_net_read handle max blocked.0 (received (b ++ b'\n' ∷ []))
              ≡ answer [] (handle_all user.state (b ∷ []))))
  unfolding handle_net_read
  handle_net_read-would_block user a b m na nb short some_room =
      let first = handle_net_read-unlines user a [] (user.recv_queue ++ a) m tt na short refl in
      (
        first,
        rw (first) (
            handle_net_read-unlines (reader [] false user.state) (b ++ b'\n' ∷ []) (b ∷ []) [] refl
              (nb, tt) tt some_room (sym (append-nil (b ++ b'\n' ∷ [])))),
      )
