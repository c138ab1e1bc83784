-- ===== src/Manifest/Transport.antt =====
-- permission_manifest.go: the requests of a command, their retries and the budget that the command's
-- requests share. The answers come from outside: `Network` has the reply to each request of a
-- command by its number, and says which waits the end of the context cuts short. Times are in
-- nanoseconds.
pub mod Budget
pub mod Outcome
use vertex_sdk_go.Prelude.{
  ℕ, zero, suc, ◌+◌, ◌-◌, ◌*◌, ◌^◌, Bool, true, false, not, ◌&&◌, ◌||◌, List, [], ◌∷◌, Option, none,
  some, Result, ok, err, length, ltb, leb, ◌==◌, if◌then◌else◌,
}
use vertex_sdk_go.Prelude.Int.{ℤ, pos, negsuc}
use vertex_sdk_go.Prelude.Strings.{Bytes}

pub record Response : Type 0 where
  pub status : ℕ
  pub retry_after : Bytes
  pub body : Bytes

-- What `http.Client.Do` and the reading of the body come to: an error of the one or the other, or a
-- response, of whose body at most one byte more than 1 MiB is read.
pub data Reply : Type 0 where
  failed : Bytes → Reply
  unreadable : Bytes → Reply
  answered : Response → Reply

pub record Network : Type 0 where
  pub reply : ℕ → Reply
  pub cancelled : ℕ → Bool

-- A command under way: the requests sent, the attempts left in its budget, and its waits, the latest
-- first.
pub record Command : Type 0 where
  pub sent : ℕ
  pub attempts : ℕ
  pub delays : List ℕ

pub data Failure : Type 0 where
  command_timeout : Failure
  transport_error : Bytes → Failure
  response_size_exceeded : ℕ → Failure
  context_done : Failure
  -- a method call on a nil error
  panic : Failure

abbrev pub millisecond : ℕ
millisecond = 1_000_000

abbrev pub second : ℕ
second = 1_000_000_000

abbrev pub one_mebibyte : ℕ
one_mebibyte = 1_048_576

-- `retryableManifestStatus`
unfoldable pub retryable : ℕ → Bool
retryable status = status == 408 || status == 429 || status == 502 || status == 503 || status == 504

-- `strconv.Atoi` for a text of at most five bytes: digits behind an optional sign
digits : ℕ → Bytes → Option ℕ
digits n [] = some n
digits n (c ∷ s) = if leb b'0' c && leb c b'9' then digits (n * 10 + (c - b'0')) s else none

unsigned : Bytes → Option ℕ
unsigned [] = none
unsigned (c ∷ s) = digits 0 (c ∷ s)

abbrev positive : Option ℕ → Option ℤ
positive none = none
positive (some n) = some (pos n)

abbrev negative : Option ℕ → Option ℤ
negative none = none
negative (some zero) = some (pos 0)
negative (some (suc n)) = some (negsuc n)

unfoldable pub atoi : Bytes → Option ℤ
unfolding digits unsigned
atoi [] = none
atoi (c ∷ s) =
    if c == b'-'
    then negative (unsigned s)
    else if c == b'+'
    then positive (unsigned s)
    else positive (unsigned (c ∷ s))

-- The seconds, and whether they can be used.
in_range : ℤ → Bool
in_range (pos n) = ltb 0 n && leb n 86_400
in_range (negsuc n) = false

parsed_seconds : Option ℤ → ℤ × Bool
parsed_seconds none = (pos 0, false)
parsed_seconds (some n) = (n, in_range n)

starts_with_zero : Bytes → Bool
starts_with_zero [] = false
starts_with_zero (c ∷ s) = c == b'0'

-- `parseManifestRetryAfter`
unfoldable pub parse_retry_after : Bytes → ℤ × Bool
unfolding in_range parsed_seconds starts_with_zero
parse_retry_after value =
    if length value == 0 || ltb 5 (length value) || starts_with_zero value
    then (pos 0, false)
    else parsed_seconds (atoi value)

-- `minDuration`
abbrev pub min_duration : ℕ → ℕ → ℕ
min_duration a b = if ltb a b then a else b

-- The first wait and its doubling; the budget keeps `attempt` below 3.
abbrev pub backoff : ℕ → ℕ
backoff attempt = 250 * 2 ^ attempt * millisecond

abbrev seconds_of : ℤ → ℕ
seconds_of (pos n) = n * second
seconds_of (negsuc n) = 0

-- The wait before a retry of a response.
retry_delay : ℕ → Response → ℕ
retry_delay attempt r =
    let parsed = parse_retry_after r.retry_after in
    if parsed.1 then seconds_of parsed.0 else backoff attempt

abbrev pub Run : Type 0
Run = Result Failure Response × Command

module _ (net : Network) (max_retries max_retry_delay : ℕ) where
  -- `waitContext`, before the loop goes on
  wait_then : ℕ → (Command → Run) → Command → Run
  wait_then delay next s =
      let s' = record s { delays = delay ∷ s.delays } in
      if net.cancelled (length s.delays) then (err context_done, s') else next s'

  -- One round of the loop of `execute`, once its request is sent. `next` is the rest of the loop, from
  -- the last error.
  round : Reply → ℕ → Option Bytes → (Option Bytes → Command → Run) → Command → Run
  round (failed e) attempt last next s =
      if attempt == max_retries || s.attempts == 0
      then (err (transport_error e), s)
      else wait_then (min_duration (backoff attempt) max_retry_delay) (next (some e)) s
  round (unreadable e) attempt last next s =
      if attempt == max_retries then (err (transport_error e), s) else next (some e) s
  round (answered r) attempt last next s =
      if ltb one_mebibyte (length r.body)
      then (err (response_size_exceeded r.status), s)
      else if not (retryable r.status) || attempt == max_retries || s.attempts == 0
      then (ok r, s)
      else wait_then (min_duration (retry_delay attempt r) max_retry_delay) (next last) s

  -- `budget.consume()` and the request.
  abbrev request : Command → Command
  request s = record { sent = s.sent + 1; attempts = s.attempts - 1; delays = s.delays }

  -- `last.Error()` behind the loop
  after_loop : Option Bytes → Failure
  after_loop none = panic
  after_loop (some e) = transport_error e

  -- The loop of `execute`: `rounds` is the number of rounds that its condition still admits.
  rounds_from : ℕ → ℕ → Option Bytes → Command → Run
  rounds_from zero attempt last s = (err (after_loop last), s)
  rounds_from (suc rounds) attempt last s =
      if s.attempts == 0
      then (err command_timeout, s)
      else round (net.reply s.sent) attempt last (rounds_from rounds (attempt + 1)) (request s)

  unfoldable pub execute : Command → Run
  unfolding rounds_from round wait_then retry_delay after_loop
  execute = rounds_from (max_retries + 1) 0 none
