-- ===== src/Proxy/Passthrough/Accepting.antt =====
-- proxy/tcp_proxy.go: the accept loop, the connections and `Shutdown` side by side, once the
-- listener listens. Each takes its steps at any time, and the steps of the others stand between.
use edged.Base.{ℕ, suc, ◌+◌, ◌≤◌, ◌≡◌, refl, Bool, true, false, arith}

-- The loop of `ListenAndServe` waits in `Accept`, holds a connection that the wait group does not count yet, or
-- has returned.
pub data Loop : Type 0 where
  waiting holding finished : Loop

-- `Shutdown` is not called, has canceled the context, waits for the wait group, or has returned.
pub data Stopping : Type 0 where
  uncalled canceled draining returned : Stopping

-- The loop, whether the listener is open, the counter of the wait group, and `Shutdown`.
pub data State : Type 0 where
  at : Loop → Bool → ℕ → Stopping → State

-- The steps that the program can take.
pub data Step : State → State → Type 0 where
  -- `listener.Accept` gives a connection
  accept : {n : ℕ} {p : Stopping} → Step (at waiting true n p) (at holding true n p)
  -- `Accept` gives an error, with which the loop returns
  refuse :
      {is_open : Bool} {n : ℕ} {p : Stopping}
      → Step (at waiting is_open n p) (at finished is_open n p)
  -- `l.wg.Add(1)`, and the goroutine of `handleConn` starts
  add :
      {is_open : Bool} {n : ℕ} {p : Stopping}
      → Step (at holding is_open n p) (at waiting is_open (suc n) p)
  -- `l.wg.Done()`
  done :
      {l : Loop} {is_open : Bool} {n : ℕ} {p : Stopping}
      → Step (at l is_open (suc n) p) (at l is_open n p)
  -- the goroutine that waits for the context closes the listener
  watch :
      {l : Loop} {is_open : Bool} {n : ℕ} {p : Stopping} → Step (at l is_open n p) (at l false n p)
  -- `l.cancel()`
  cancel :
      {l : Loop} {is_open : Bool} {n : ℕ} → Step (at l is_open n uncalled) (at l is_open n canceled)
  -- `l.listener.Close()`
  close :
      {l : Loop} {is_open : Bool} {n : ℕ} → Step (at l is_open n canceled) (at l false n draining)
  -- `l.wg.Wait()` returns
  drain : {l : Loop} {is_open : Bool} → Step (at l is_open 0 draining) (at l is_open 0 returned)

infixr 40 ◌next◌
pub data Reaches : State → State → Type 0 where
  here : {s : State} → Reaches s s
  ◌next◌ : {s t u : State} → Step s t → Reaches t u → Reaches s u

-- A listener that listens, with some connections.
abbrev pub serving : ℕ → State
serving n = at waiting true n uncalled

abbrev pub held : Loop → ℕ
held waiting = 0
held holding = 1
held finished = 0

-- The connections that are handled or will be.
abbrev pub pending : State → ℕ
pending (at l is_open n p) = held l + n

abbrev pub stopping_of : State → Stopping
stopping_of (at l is_open n p) = p

-- Behind the closing the listener is closed, and behind the return at most one connection is left.
abbrev Inv : State → Type 0
Inv (at l is_open n uncalled) = Unit
Inv (at l is_open n canceled) = Unit
Inv (at l is_open n draining) = is_open ≡ false
Inv (at l is_open n returned) = (is_open ≡ false) × (held l + n ≤ 1)

held_le : (l : Loop) → held l + 0 ≤ 1
held_le waiting = omega arith
held_le holding = omega arith
held_le finished = omega arith

Step-Inv : {s t : State} → Step s t → Inv s → Inv t
Step-Inv (accept {p = uncalled}) i = tt
Step-Inv (accept {p = canceled}) i = tt
Step-Inv (accept {p = draining}) i = absurd (cc i)
Step-Inv (accept {p = returned}) i = absurd (let e = i.0 in cc e)
Step-Inv (refuse {p = uncalled}) i = tt
Step-Inv (refuse {p = canceled}) i = tt
Step-Inv (refuse {p = draining}) i = i
Step-Inv (refuse {p = returned}) i = i
Step-Inv (add {p = uncalled}) i = tt
Step-Inv (add {p = canceled}) i = tt
Step-Inv (add {p = draining}) i = i
Step-Inv (add {p = returned}) i = (i.0, (let h = i.1 in omega arith))
Step-Inv (done {p = uncalled}) i = tt
Step-Inv (done {p = canceled}) i = tt
Step-Inv (done {p = draining}) i = i
Step-Inv (done {l} {p = returned}) i = (i.0, (let h = i.1 in omega arith))
Step-Inv (watch {p = uncalled}) i = tt
Step-Inv (watch {p = canceled}) i = tt
Step-Inv (watch {p = draining}) i = refl
Step-Inv (watch {p = returned}) i = (refl, i.1)
Step-Inv cancel i = tt
Step-Inv close i = refl
Step-Inv (drain {l}) i = (i, held_le l)

Reaches-Inv : {s t : State} → Reaches s t → Inv s → Inv t
Reaches-Inv here i = i
Reaches-Inv (c next r) i = Reaches-Inv r (Step-Inv c i)

bounded : (s : State) → Inv s → stopping_of s ≡ returned → pending s ≤ 1
bounded (at l is_open n uncalled) i e = absurd (cc e)
bounded (at l is_open n canceled) i e = absurd (cc e)
bounded (at l is_open n draining) i e = absurd (cc e)
bounded (at l is_open n returned) i e = i.1

-- In every interleaving of the accept loop, the connections and `Shutdown`, from a listener that
-- listens, with any number of connections: once `Shutdown` has returned, at most one connection is handled or still
-- will be.
pub Reaches-pending_le :
    (n : ℕ) {s : State} → Reaches (serving n) s → stopping_of s ≡ returned → pending s ≤ 1
Reaches-pending_le n {s} r e = bounded s (Reaches-Inv r tt) e
