-- ===== src/Glob.antt =====
-- `path.Match` of Go's standard library, on ASCII text: `*` (any run without a slash), `?` (any byte
-- but a slash), `[...]` and `[^...]` (classes), `\x` (the byte x). The pattern is read whole first,
-- since a malformed one is an error whatever the name is; then the chunks between stars are matched
-- from the left, each at the first place where it fits.
mod Laws
pub use Laws.*
mod Defs
unfoldable pub use Defs.*
