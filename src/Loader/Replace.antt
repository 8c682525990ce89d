-- ===== src/Loader/Replace.antt =====
-- `str_replace` of src/handlers/loader.c: the text of a template, with its placeholders replaced.
pub mod Splice
pub mod First
use wind_breaker.Prelude.{
  ℕ, zero, suc, ◌+◌, ◌-◌, Bool, true, false, not, ◌&&◌, List, [], ◌∷◌, ◌++◌, Option, none, some,
  length, take, drop, ltb, leb, if◌then◌else◌,
}
use wind_breaker.Prelude.Fault.{◌>>=◌, ◌>>◌, assert}
use wind_breaker.Prelude.Int.{is_positive}
use wind_breaker.Prelude.Bytes.{overwrite, terminated, find}
use wind_breaker.Buffer.{Buffer, Memory, ensure_capacity}

-- The room for a replacement that is not shorter than the placeholder.
pub make_room : Memory → ℕ → ℕ → Buffer → Option Buffer
unfolding ensure_capacity
make_room m needle_len repl_len b =
    if leb needle_len repl_len
    then (do
      ensured ← ensure_capacity m b (b.count + (repl_len - needle_len) + 1)
      assert (is_positive ensured.0)
      some ensured.1)
    else some b

-- `memmove` of what follows the placeholder at `hit`, `memcpy` of the replacement, and the closing
-- zero. `none` is a write or a read out of range.
pub splice : ℕ → ℕ → List ℕ → Buffer → Option Buffer
unfolding overwrite
splice hit needle_len replacement b =
    let moved : ℕ = b.count - (hit + needle_len) in
    let count : ℕ = hit + length replacement + moved in
    if leb (hit + needle_len) b.count
      && (leb b.count (length b.bytes) && ltb count (length b.bytes))
    then some (record b {
      count = count;
      bytes = overwrite count (0 ∷ []) (
          overwrite hit replacement (
            overwrite (hit + length replacement) (take moved (drop (hit + needle_len) b.bytes))
              b.bytes));
    })
    else none

-- `n` rounds from `offset`, with whether this is the first round. The next offset adds the position
-- of the hit in the whole text to the offset before.
pub replace_rounds : ℕ → Bool → ℕ → Memory → List ℕ → List ℕ → Buffer → Option Buffer
unfolding terminated find make_room splice
replace_rounds zero first offset m needle replacement b = some b
replace_rounds (suc n) first offset m needle replacement b = do
  text ← terminated (drop offset b.bytes)
  elim (find needle text) [
    | none ↦ (do assert (not first); some b)
    | some k ↦ (do
      roomy ← make_room m (length needle) (length replacement) b
      spliced ← splice (offset + k) (length needle) replacement roomy
      replace_rounds n false (offset + (offset + k) + length replacement) m needle replacement
          spliced)
  ]

unfoldable pub str_replace : Memory → List ℕ → List ℕ → Buffer → Option Buffer
unfolding replace_rounds
str_replace = replace_rounds 10 true 0
