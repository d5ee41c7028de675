-- ===== src/RemoteWrites/Transport.antt =====
-- `_D1Transport` of memora/backends.py: one kept connection, and its one retry.
use memora.Prelude.{ℕ, ◌+◌, Bool, true, false, ◌&&◌, List, [], ◌∷◌, if◌then◌else◌, ltb, nat_eq}
use memora.Prelude.Text.{Text, codes}
use memora.SqlClassify.Tokens.{CharTables}

-- What one attempt answers: no byte at all, an error after the first byte, or a whole response with
-- its status, its body and whether it asks to close the connection.
pub data Attempt : Type 0 where
  no_response : Attempt
  cut_off : Attempt
  response : ℕ → Text → Bool → Attempt

-- The kept connection, and every request that was handed to a socket, the latest first. Times are
-- milliseconds of the monotonic clock.
pub record Transport : Type 0 where
  pub is_open : Bool
  pub last_used : ℕ
  pub requests : List Text

pub data Posted : Type 0 where
  replied : ℕ → Text → Posted
  raised : Posted

-- `_D1_KEEPALIVE_IDLE_SECONDS`
abbrev pub keepalive_idle : ℕ
keepalive_idle = 25000

abbrev pub close : Transport → Transport
close t = record t { is_open = false }

-- `request` on the connection, opened when there is none.
abbrev pub hand_over : Text → Transport → Transport
hand_over body t = record t { is_open = true; requests = body ∷ t.requests }

-- What follows the last attempt.
unfoldable pub receive : ℕ → Attempt → Transport → Posted × Transport
receive later no_response t = (raised, close t)
receive later cut_off t = (raised, close t)
receive later (response status body ends) t =
    let used = record t { last_used = later } in
    (replied status body, if ends then close used else used)

-- `post`: `now` and `later` are the readings of the clock, `first` and `second` the attempts.
unfoldable pub post : Text → Bool → ℕ → Attempt → Attempt → ℕ → Transport → Posted × Transport
unfolding receive
post body retry_safe now first second later t =
    let reused = if t.is_open && ltb (t.last_used + keepalive_idle) now then false else t.is_open in
    let sent = hand_over body t in
    elim first [
      | no_response ↦
          if reused && retry_safe
          then receive later second (hand_over body (close sent))
          else (raised, close sent)
      | cut_off ↦ receive later cut_off sent
      | response status reply ends ↦ receive later (response status reply ends) sent
    ]

-- `str.lstrip`
lstrip : CharTables → Text → Text
lstrip u [] = []
lstrip u (c ∷ cs) = if u.is_space c then lstrip u cs else c ∷ cs

-- `str.startswith`
unfoldable pub starts_with : Text → Text → Bool
starts_with [] t = true
starts_with (c ∷ cs) [] = false
starts_with (c ∷ cs) (d ∷ ds) = nat_eq c d && starts_with cs ds

-- `_is_read_statement`
unfoldable pub is_read_statement : CharTables → Text → Bool
unfolding lstrip starts_with
is_read_statement u sql = starts_with (codes "SELECT") (u.upper (lstrip u sql))
