-- ===== src/Proxy/Copying.antt =====
-- proxy/tcp_proxy.go: `copyContext`, the loop that pipes one direction of a passthrough connection.
-- What the two connections and the context do in a round of the loop is data; the list of rounds
-- is as long as the loop is watched.
pub mod Delivery
use edged.Base.{
  ℕ, suc, ◌&&◌, not, Bool, true, false, Option, none, some, List, [], ◌∷◌, ◌++◌, if◌then◌else◌,
  is_empty, take, Bytes,
}
use edged.Base.Int.{ℤ, pos, ltb_ℤ}

pub data ReadError : Type 0 where
  timeout eof other_error : ReadError

-- `ctx.Done()`, what `src.Read` returns, and the bytes that `dst.Write` takes before an error, if
-- it returns one.
pub record Round : Type 0 where
  pub done : Bool
  pub chunk : Bytes
  pub read_error : Option ReadError
  pub write_error : Option ℕ

pub data CopyEnd : Type 0 where
  running finished canceled write_failed read_failed : CopyEnd

-- What stands written at the destination, and how often a read deadline was set.
pub record Copied : Type 0 where
  pub written : Bytes
  pub deadlines : ℕ

abbrev pub add_bytes : Copied → Bytes → Copied
add_bytes c bytes = record c { written = c.written ++ bytes }

unfoldable pub set_deadline : Bool → ℤ → Copied → Copied
set_deadline can_deadline idle_timeout c =
    if can_deadline && ltb_ℤ (pos 0) idle_timeout
    then record c { deadlines = suc c.deadlines }
    else c

-- The test of the read's error; `onward` is the rest of the loop.
unfoldable pub after_read : Option ReadError → Copied → CopyEnd × Copied → CopyEnd × Copied
after_read none full onward = onward
after_read (some timeout) full onward = onward
after_read (some eof) full onward = (finished, full)
after_read (some other_error) full onward = (read_failed, full)

-- The write of what was read, if anything was.
unfoldable pub write_chunk : Option ℕ → Bytes → Copied → CopyEnd × Copied → CopyEnd × Copied
write_chunk (some n) chunk c behind = (write_failed, add_bytes c (take n chunk))
write_chunk none chunk c behind = behind

unfoldable pub copy_context : Bool → ℤ → List Round → Copied → CopyEnd × Copied
copy_context can_deadline idle_timeout [] c = (running, c)
copy_context can_deadline idle_timeout (r ∷ rounds) c =
    let armed = set_deadline can_deadline idle_timeout c in
    let full = add_bytes armed r.chunk in
    let behind =
      after_read r.read_error full (copy_context can_deadline idle_timeout rounds full) in
    if r.done
    then (canceled, armed)
    else if is_empty r.chunk
    then behind
    else write_chunk r.write_error r.chunk armed behind
