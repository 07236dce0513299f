-- ===== src/Proxy/Copying/Delivery.antt =====
-- What `copyContext` delivers.
use edged.Base.{
  ℕ, suc, ◌≡◌, ◌≢◌, refl, sym, ◌∙◌, ap, ◌⊎◌, inl, inr, ◌&&◌, Bool, true, false, Option, none, some,
  List, [], ◌∷◌, ◌++◌, append_assoc, append-nil, if◌then◌else◌, is_empty, is_empty-eq, take, Bytes,
  All, on_branches,
}
use mathlib.Core.Path.{subst}
use edged.Base.Int.{ℤ, pos, ltb_ℤ}
use edged.Proxy.Copying.{
  ReadError, timeout, eof, other_error, Round, CopyEnd, running, finished, canceled, write_failed,
  read_failed, Copied, add_bytes, set_deadline, after_read, write_chunk, copy_context,
}

-- All that the rounds read.
abbrev pub received : List Round → Bytes
received [] = []
received (r ∷ rounds) = r.chunk ++ received rounds

-- What was read is written, if anything was.
abbrev pub Writes : Round → Type 0
Writes r = (r.chunk ≡ []) ⊎ (r.write_error ≡ none)

-- The loop goes on behind the round.
abbrev pub Passes : Round → Type 0
Passes r = (r.done ≡ false) × (Writes r × ((r.read_error ≡ none) ⊎ (r.read_error ≡ some timeout)))

-- How the loop ends in a round, and what it still writes.
pub data Stops (r : Round) : CopyEnd → Bytes → Type 0 where
  on_done : r.done ≡ true → Stops r canceled []
  on_write_error :
      (n : ℕ)
      → r.done ≡ false
      → r.chunk ≢ []
      → r.write_error ≡ some n
      → Stops r write_failed (take n r.chunk)
  on_eof : r.done ≡ false → Writes r → r.read_error ≡ some eof → Stops r finished r.chunk
  on_read_error :
      r.done ≡ false → Writes r → r.read_error ≡ some other_error → Stops r read_failed r.chunk

-- The end of a copy and all that it wrote behind `before`.
pub data Delivers (rounds : List Round) (before : Bytes) : CopyEnd → Bytes → Type 0 where
  still_running : All Passes rounds → Delivers rounds before running (before ++ received rounds)
  stopped :
      (passed after : List Round) (r : Round) (last : Bytes) {end : CopyEnd}
      → rounds ≡ passed ++ r ∷ after
      → All Passes passed
      → Stops r end last
      → Delivers rounds before end (before ++ (received passed ++ last))

Delivers-cons :
    (r : Round) (rounds : List Round) (before : Bytes) {end : CopyEnd} {bytes : Bytes}
    → Passes r
    → Delivers rounds (before ++ r.chunk) end bytes
    → Delivers (r ∷ rounds) before end bytes
Delivers-cons r rounds before p (still_running all) =
    subst (Delivers (r ∷ rounds) before running)
      (sym (append_assoc before r.chunk (received rounds))) (still_running (p, all))
Delivers-cons r rounds before p (stopped passed after s last {end} e all stops) =
    subst (Delivers (r ∷ rounds) before end)
      (ap (λ t. before ++ t) (append_assoc r.chunk (received passed) last)
        ∙ sym (append_assoc before r.chunk (received passed ++ last)))
      (stopped (r ∷ passed) after s last (ap (◌∷◌ r) e) (p, all) stops)

Stops-first :
    (r : Round) (rounds : List Round) (before last : Bytes) {end : CopyEnd}
    → Stops r end last
    → Delivers (r ∷ rounds) before end (before ++ last)
Stops-first r rounds before last s = stopped [] rounds r last refl tt s

pub written-set_deadline :
    (can : Bool) (idle : ℤ) (c : Copied) → (set_deadline can idle c).written ≡ c.written
unfolding set_deadline
written-set_deadline can idle c = pick (can && ltb_ℤ (pos 0) idle)
  where
    pick :
        (b : Bool) → (if b then record c { deadlines = suc c.deadlines } else c).written ≡ c.written
    pick true = refl
    pick false = refl

-- The end and the bytes of a run.
abbrev pub Accounts : List Round → Bytes → CopyEnd × Copied → Type 0
Accounts rounds before (end, c) = Delivers rounds before end c.written

after_read-Delivers :
    (r : Round) (rounds : List Round) (before : Bytes) (full : Copied) (onward : CopyEnd × Copied)
    → full.written ≡ before ++ r.chunk
    → r.done ≡ false
    → Writes r
    → Accounts rounds full.written onward
    → Accounts (r ∷ rounds) before (after_read r.read_error full onward)
unfolding after_read
after_read-Delivers r rounds before full (end, c) e live w d = go r.read_error refl
  where
    go :
        (o : Option ReadError)
        → r.read_error ≡ o
        → Accounts (r ∷ rounds) before (after_read o full (end, c))
    go none is =
        Delivers-cons r rounds before (live, (w, inl is))
          (subst (λ b. Delivers rounds b end c.written) e d)
    go (some timeout) is =
        Delivers-cons r rounds before (live, (w, inr is))
          (subst (λ b. Delivers rounds b end c.written) e d)
    go (some eof) is =
        subst (Delivers (r ∷ rounds) before finished) (sym e)
          (Stops-first r rounds before r.chunk (on_eof live w is))
    go (some other_error) is =
        subst (Delivers (r ∷ rounds) before read_failed) (sym e)
          (Stops-first r rounds before r.chunk (on_read_error live w is))

write_chunk-Delivers :
    (r : Round) (rounds : List Round) (before : Bytes) (armed : Copied) (behind : CopyEnd × Copied)
    → armed.written ≡ before
    → r.done ≡ false
    → is_empty r.chunk ≡ false
    → (Writes r → Accounts (r ∷ rounds) before behind)
    → Accounts (r ∷ rounds) before (write_chunk r.write_error r.chunk armed behind)
unfolding write_chunk
write_chunk-Delivers r rounds before armed behind same live read d = go r.write_error refl
  where
    filled : (s : Bytes) → is_empty s ≡ false → s ≢ []
    filled [] h e = cc
    filled (c ∷ s) h e = cc

    go :
        (o : Option ℕ)
        → r.write_error ≡ o
        → Accounts (r ∷ rounds) before (write_chunk o r.chunk armed behind)
    go none is = d (inr is)
    go (some n) is =
        subst (Delivers (r ∷ rounds) before write_failed) (ap (λ b. b ++ take n r.chunk) (sym same))
          (Stops-first r rounds before (take n r.chunk)
            (on_write_error n live (filled r.chunk read) is))

-- Where the loop is watched for a number of rounds, it writes in order exactly what it has read, and
-- goes on through timeouts. It ends in the first round in which the context is done, a write fails,
-- or a read fails otherwise or reaches the end of the stream; in that round nothing is written if
-- the context is done, the bytes taken if a write fails, and else all that was read.
pub copy_context-Delivers :
    (can_deadline : Bool) (idle_timeout : ℤ) (rounds : List Round) (c : Copied)
    → Accounts rounds c.written (copy_context can_deadline idle_timeout rounds c)
unfolding copy_context
copy_context-Delivers can idle [] c =
    subst (Delivers [] c.written running) (append-nil c.written) (still_running tt)
copy_context-Delivers can idle (r ∷ rounds) c =
    let armed = set_deadline can idle c in
    let same : armed.written ≡ c.written = written-set_deadline can idle c in
    let full = add_bytes armed r.chunk in
    let onward = copy_context can idle rounds full in
    let rest : Accounts rounds full.written onward = copy_context-Delivers can idle rounds full in
    let next = λ (live : r.done ≡ false) (w : Writes r).
      after_read-Delivers r rounds c.written full onward (ap (λ b. b ++ r.chunk) same) live w
        rest in
    on_branches (Accounts (r ∷ rounds) c.written) r.done _ _
      (λ over.
        subst (Delivers (r ∷ rounds) c.written canceled) (append-nil c.written ∙ sym same)
          (Stops-first r rounds c.written [] (on_done over)))
      (λ live.
        on_branches (Accounts (r ∷ rounds) c.written) (is_empty r.chunk) _ _
          (λ nothing. next live (inl (is_empty-eq r.chunk nothing)))
          (λ read. write_chunk-Delivers r rounds c.written armed _ same live read (next live)))
