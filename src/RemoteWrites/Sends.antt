-- ===== src/RemoteWrites/Sends.antt =====
-- How often memora/backends.py hands a request to a socket.
use memora.Prelude.{
  ◌⊎◌, ℕ, ◌+◌, Bool, true, false, ◌&&◌, List, ◌∷◌, ◌≡◌, refl, arith, ltb, if◌then◌else◌, ◌≤◌, ◌∙◌,
  ap, Option, Bool-cases, leb, inl, inr,
}
use memora.Prelude.Text.{Text}
use memora.RemoteWrites.Transport.{
  Attempt, no_response, cut_off, response, Transport, Posted, replied, raised, receive, post,
  keepalive_idle, is_read_statement,
}
use memora.RemoteWrites.Connection.{Api, Connection, Reply, read_reply, send}

-- When a request is sent a second time.
pub record Resends (retry_safe : Bool) (now : ℕ) (first : Attempt) (t : Transport) : Type 0 where
  pub safe : retry_safe ≡ true
  pub reused : t.is_open ≡ true
  pub recent : now ≤ t.last_used + keepalive_idle
  pub silent : first ≡ no_response

receive-requests :
    (later : ℕ) (a : Attempt) (t : Transport) → (receive later a t).1.requests ≡ t.requests
unfolding receive
receive-requests later no_response t = refl
receive-requests later cut_off t = refl
receive-requests later (response status body ends) t = ground arith

abbrev sent_once : Text → Transport → Transport
sent_once body t = record t { is_open = true; requests = body ∷ t.requests }

abbrev sent_twice : Text → Transport → Transport
sent_twice body t = record t { is_open = true; requests = body ∷ body ∷ t.requests }

-- The connection that is used again.
abbrev kept : ℕ → Transport → Bool
kept now t = if t.is_open && ltb (t.last_used + keepalive_idle) now then false else t.is_open

kept-Resends :
    (retry_safe : Bool) (now : ℕ) (t : Transport)
    → (kept now t && retry_safe) ≡ true
    → Resends retry_safe now no_response t
kept-Resends retry_safe now t h = record {
  safe = ground arith;
  reused = ground arith;
  recent = ground arith;
  silent = refl;
}

-- A reply changes the session token, and nothing else.
pub read_reply-shape :
    (api : Api) (header : Option Text) (p : Posted) (c : Connection)
    → (read_reply api header p c).1 ≡ record c { token = (read_reply api header p c).1.token }
unfolding read_reply
read_reply-shape api header raised c = refl
read_reply-shape api header (replied status raw) c = elim (Bool-cases (leb 400 status)) [
  | inl bad ↦ rw bad refl
  | inr good ↦ rw good refl
]

-- A send leaves the gate and the journal alone.
pub send-keeps :
    (api : Api) (sql : Text) (params : List Text) (r : Reply) (c : Connection)
    → ((send api sql params r c).1.gate ≡ c.gate)
      × ((send api sql params r c).1.journal ≡ c.journal)
unfolding send
send-keeps api sql params r c =
    let p =
      post (api.encode sql params) (is_read_statement api.tables sql) r.now r.first r.second r.later
        c.transport in
    let c' : Connection = record c { transport = p.1; request_count = c.request_count + 1 } in
    let shape = read_reply-shape api r.header p.0 c' in
    (ap (λ (d : Connection). d.gate) shape, ap (λ (d : Connection). d.journal) shape)

not_kept :
    (retry_safe : Bool) (now : ℕ) (t : Transport)
    → Resends retry_safe now no_response t
    → (kept now t && retry_safe) ≡ false
    → ⊥
not_kept retry_safe now t d h = ground (arith, d.safe, d.reused, d.recent)

-- A request that is not sent a second time is sent once.
post_once :
    (body : Text) (retry_safe : Bool) (now later : ℕ) (first second : Attempt) (t : Transport)
    → ¬ Resends retry_safe now first t
    → (post body retry_safe now first second later t).1.requests ≡ body ∷ t.requests
unfolding post
post_once body retry_safe now later no_response second t no_resend =
    elim (Bool-cases (kept now t && retry_safe)) [
      | inl again ↦ absurd (no_resend (kept-Resends retry_safe now t again))
      | inr once ↦ rw once refl
    ]
post_once body retry_safe now later cut_off second t no_resend =
    receive-requests later cut_off (sent_once body t)
post_once body retry_safe now later (response status reply ends) second t no_resend =
    receive-requests later (response status reply ends) (sent_once body t)

post_twice :
    (body : Text) (retry_safe : Bool) (now later : ℕ) (second : Attempt) (t : Transport)
    → Resends retry_safe now no_response t
    → (post body retry_safe now no_response second later t).1.requests ≡ body ∷ body ∷ t.requests
unfolding post
post_twice body retry_safe now later second t d =
    ground (arith, d.safe, d.reused, d.recent, receive-requests later second (sent_twice body t))

-- A request is handed to a socket a second time exactly when it may be repeated, the connection was
-- kept from an earlier request and is not idle for too long, and not one byte of a response came. In
-- every other case it is handed over once.
pub post-Resends :
    (body : Text) (retry_safe : Bool) (now later : ℕ) (first second : Attempt) (t : Transport)
    → (Resends retry_safe now first t
        × ((post body retry_safe now first second later t).1.requests ≡ body ∷ body ∷ t.requests))
      ⊎ ((¬ Resends retry_safe now first t)
          × ((post body retry_safe now first second later t).1.requests ≡ body ∷ t.requests))
post-Resends body retry_safe now later no_response second t =
    elim (Bool-cases (kept now t && retry_safe)) [
      | inl again ↦
          let d = kept-Resends retry_safe now t again in
          inl (d, post_twice body retry_safe now later second t d)
      | inr once ↦
          let no_resend : ¬ Resends retry_safe now no_response t =
            λ d. not_kept retry_safe now t d once in
          inr (no_resend, post_once body retry_safe now later no_response second t no_resend)
    ]
post-Resends body retry_safe now later cut_off second t =
    (let apart : ¬ Resends retry_safe now cut_off t = λ d. cc (d.silent) in
      inr (apart, post_once body retry_safe now later cut_off second t apart))
post-Resends body retry_safe now later (response status reply ends) second t =
    (let apart : ¬ Resends retry_safe now (response status reply ends) t = λ d. cc (d.silent) in
      inr (apart, post_once body retry_safe now later (response status reply ends) second t apart))

-- A statement that is not a SELECT is handed to a socket once, whatever the network does.
pub send-requests :
    (api : Api) (sql : Text) (params : List Text) (r : Reply) (c : Connection)
    → is_read_statement api.tables sql ≡ false
    → (send api sql params r c).1.transport.requests ≡ api.encode sql params ∷ c.transport.requests
unfolding send
send-requests api sql params r c h =
    let once =
      post_once (api.encode sql params) (is_read_statement api.tables sql) r.now r.later r.first
        r.second c.transport (λ d. cc (d.safe, h)) in
    let p =
      post (api.encode sql params) (is_read_statement api.tables sql) r.now r.first r.second r.later
        c.transport in
    let c' : Connection = record c { transport = p.1; request_count = c.request_count + 1 } in
    ap (λ (d : Connection). d.transport.requests) (read_reply-shape api r.header p.0 c') ∙ once
