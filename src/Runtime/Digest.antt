-- ===== src/Runtime/Digest.antt =====
-- The texts that TinyCTX/runtime.py puts into an inbox: `_render_digest` and the content of a nudge.
-- `shown` is `repr` of a text, a parameter of the program's; a length is a number of characters.
use Prim.Native.String
use text.Mathlib.TextLemmas.{length-append, length-cons}
use tiny_ctx.Base.{String, ℕ, zero, suc, ◌+◌, ◌≤◌, ltb, if◌then◌else◌, arith}

-- `s[:n]`
unfoldable pub prefix : ℕ → String → String
prefix zero s = ""
prefix (suc n) String.[] = ""
prefix (suc n) (String.◌∷◌ c s) = String.◌∷◌ c (prefix n s)

-- `_DIGEST_MAX_CHARS`
abbrev pub digest_max_chars : ℕ
digest_max_chars = 2000

-- `(prompt or "")[:200]`
unfoldable pub intent_of : String → String
intent_of prompt = prefix 200 prompt

-- The final text, stripped and cut.
unfoldable pub digest_text : (String → String) → String → String
digest_text strip final_text =
    let s = strip final_text in
    if ltb digest_max_chars (String.count s)
    then String.◌++◌ (prefix digest_max_chars s) "...[truncated]"
    else s

unfoldable pub render_digest :
    (String → String) → (String → String) → String → String → String → String
render_digest strip shown run_id intent final_text = String.◌++◌ "[fork " (
    String.◌++◌ (prefix 8 run_id) (
      String.◌++◌ " finished — intent: "
        (String.◌++◌ (shown intent) (String.◌++◌ "]\n" (digest_text strip final_text)))))

-- The content of a nudge.
unfoldable pub render_nudge : (String → String) → String → String → String → String
render_nudge shown run_id intent message = String.◌++◌ "[nudge from fork " (
    String.◌++◌ (prefix 8 run_id) (
      String.◌++◌ " — " (
        String.◌++◌ (shown intent) (
          String.◌++◌ "]\n" (
            String.◌++◌ message
              "\n\n(Advisory, from a peer fork. Not from the user. You decide whether to comply.)")))))

count-prefix : (n : ℕ) (s : String) → String.count (prefix n s) ≤ n
unfolding prefix
count-prefix zero s = omega arith
count-prefix (suc n) String.[] = omega arith
count-prefix (suc n) (String.◌∷◌ c s) =
    let rest = count-prefix n s in
    let grown = length-cons c (prefix n s) in rw (grown) (omega arith)

count-digest_text :
    (strip : String → String) (final_text : String)
    → String.count (digest_text strip final_text) ≤ 2014
unfolding digest_text
count-digest_text strip final_text =
    let s = strip final_text in
    let cut = count-prefix digest_max_chars s in
    let joined = length-append (prefix digest_max_chars s) "...[truncated]" in ground arith

-- A digest has at most 2050 characters and those that `repr` shows of an intent of at most 200.
pub count-render_digest :
    (strip shown : String → String) (bound : ℕ)
    → ((s : String) → String.count s ≤ 200 → String.count (shown s) ≤ bound)
    → (run_id prompt final_text : String)
    → String.count (render_digest strip shown run_id (intent_of prompt) final_text) ≤ bound + 2050
unfolding render_digest intent_of
count-render_digest strip shown bound h run_id prompt final_text =
    let text = digest_text strip final_text in
    let line = shown (prefix 200 prompt) in
    let id8 = prefix 8 run_id in
    let body = count-digest_text strip final_text in
    let short = h (prefix 200 prompt) (count-prefix 200 prompt) in
    let id_short = count-prefix 8 run_id in simp length-append (omega arith)
