-- ===== src/Scan/Output.antt =====
-- What scanLines sends: no stop reason on a mid-turn message, a background stamp exactly on the
-- messages that end something, and a context window after each message that shows a fill.
use agentrun.Prelude.{
  ℕ, ◌⊎◌, ◌≡◌, refl, ◌∙◌, ap, Str, Bool, true, false, ◌&&◌, ◌||◌, Option, none, some, List, [], ◌∷◌,
  arith, is_empty, has, pos, All, All-append, Returns, Returns-bind, Bool-cases, Option-cases, inl,
  inr,
}
use agentrun.Message.{
  Message, context_window, is_result, is_init, is_error, is_task_result, context_fill,
}
use agentrun.Tracker.{new_background_tracker}
use agentrun.Tracker.Observe.{new_background_tracker-IsValid}
use agentrun.Scan.{
  Env, Event, Selects, sends_both, Scan, Parsed, parsed, skip_line, parse_error, carry_stop_reason,
  apply_context_fill, enrich_message, synthesize_context_window, window_message, send_messages,
  emit_with_synthesis, parse_line, stamp_time, scan_message, scan_parsed, scan_line, scan_lines,
  start_scan,
}
use agentrun.Scan.Enriched.{filled-same, TrackerIsValid, filled, Enriched, enriched}

-- What the backend's parser may return: it does not stamp the background itself.
abbrev pub IsUnstamped : Parsed → Type 0
IsUnstamped (parsed msg) = msg.background ≡ none
IsUnstamped skip_line = Unit
IsUnstamped (parse_error err) = Unit

-- What holds of each message sent, by whether background work is tracked.
abbrev pub IsSent : Bool → Message → Type 0
IsSent tracking msg =
    ((is_init msg.type || is_result msg.type || is_empty msg.stop_reason) ≡ true)
    × (has msg.background ≡ (tracking && (is_result msg.type || is_task_result msg.type)))

stop_reason-filled :
    (env : Env) (s : Scan) (msg : Message)
    → (is_init msg.type || is_result msg.type || is_empty (filled env s msg).stop_reason) ≡ true
unfolding carry_stop_reason apply_context_fill
stop_reason-filled env s msg = ground arith

abbrev IfAny : (Message → Type 0) → Option Message → Type 0
IfAny P none = Unit
IfAny P (some msg) = P msg

window-IsSent :
    (tracking : Bool) (msg : Message) → IfAny (IsSent tracking) (synthesize_context_window msg)
unfolding synthesize_context_window window_message
window-IsSent tracking msg = ground arith

emitted_with :
    (tracking : Bool) (selects : Selects) (msg : Message) (synth : Option Message)
    → IsSent tracking msg
    → IfAny (IsSent tracking) synth
    → All (IsSent tracking) (send_messages selects msg synth).0
unfolding send_messages
emitted_with tracking selects msg none h w = ground arith
emitted_with tracking selects msg (some synth) h w = ground arith

start-TrackerIsValid :
    (names : List Str) (track_shell : Bool)
    → TrackerIsValid (new_background_tracker names track_shell)
start-TrackerIsValid names track_shell =
    elim (Option-cases (new_background_tracker names track_shell)) [
      | inl inert ↦ rw inert tt
      | inr (t, made) ↦ rw made (new_background_tracker-IsValid names track_shell t made)
    ]

module _ (tracking : Bool) (env : Env)
    (unstamped : (line : Str) → Returns IsUnstamped (env.parse line)) where
  -- The result of one round, and of the whole loop.
  record Pumped (r : Scan × List Message × Bool) : Type 0 where
    valid : TrackerIsValid r.0.tracker
    tracks : has r.0.tracker ≡ tracking
    sent : All (IsSent tracking) r.1

  Enriched-IsSent :
      (s : Scan) (msg : Message) (r : Message × Scan)
      → has s.tracker ≡ tracking
      → msg.background ≡ none
      → Enriched env s msg r
      → IsSent tracking r.0
  Enriched-IsSent s msg r tracks b p =
      let reason =
        ap
          (λ (sent : Message).
            is_init sent.type || is_result sent.type || is_empty sent.stop_reason)
          p.same in
      let type = ap (λ (sent : Message). sent.type) p.same ∙ (filled-same env s msg).0 in
      (
        ground (arith, reason, stop_reason-filled env s msg, filled-same env s msg),
        ground (arith, p.stamped b, type, tracks),
      )

  enriched-Pumped :
      (s : Scan) (selects : Selects) (msg : Message)
      → TrackerIsValid s.tracker
      → has s.tracker ≡ tracking
      → msg.background ≡ none
      → Returns Pumped (scan_message env s selects msg false)
  unfolding scan_message emit_with_synthesis
  enriched-Pumped s selects msg v tracks b =
      Returns-bind (Enriched env s msg) Pumped (enrich_message env s msg) _ (enriched env s msg v)
        λ r p. record {
          valid = p.valid;
          tracks = p.tracks ∙ tracks;
          sent =
              emitted_with tracking selects r.0 (synthesize_context_window r.0)
                (Enriched-IsSent s msg r tracks b p) (window-IsSent tracking r.0);
        }

  scan_message-Pumped :
      (s : Scan) (selects : Selects) (msg : Message) (backend_error : Bool)
      → TrackerIsValid s.tracker
      → has s.tracker ≡ tracking
      → msg.background ≡ none
      → Returns Pumped (scan_message env s selects msg backend_error)
  unfolding scan_message
  scan_message-Pumped s selects msg true v tracks b =
      enriched-Pumped (record s { max_call_fill = pos 0 }) selects msg v tracks b
  scan_message-Pumped s selects msg false v tracks b = enriched-Pumped s selects msg v tracks b

  scan_parsed-Pumped :
      (s : Scan) (selects : Selects) (now : ℕ) (p : Parsed)
      → TrackerIsValid s.tracker
      → has s.tracker ≡ tracking
      → IsUnstamped p
      → Returns Pumped (scan_parsed env s selects (parse_line now p))
  unfolding scan_parsed parse_line
  scan_parsed-Pumped s selects now skip_line v tracks u = record {
    valid = v;
    tracks = tracks;
    sent = tt;
  }
  scan_parsed-Pumped s selects now (parsed msg) v tracks u =
      scan_message-Pumped s selects (stamp_time now msg) (is_error msg.type) v tracks (ground arith)
  scan_parsed-Pumped s selects now (parse_error err) v tracks u =
      scan_message-Pumped s selects _ false v tracks (ground arith)

  scan_line-Pumped :
      (s : Scan) (e : Event)
      → TrackerIsValid s.tracker
      → has s.tracker ≡ tracking
      → Returns Pumped (scan_line env s e)
  unfolding scan_line
  scan_line-Pumped s e v tracks = elim (Bool-cases e.send_stored) [
    | inl on ↦ simp on (
        Returns-bind IsUnstamped Pumped (env.parse e.line) _ (unstamped e.line) (λ p.
          scan_parsed-Pumped (record s { awaiting_result = true }) e.selects e.now p v tracks))
    | inr off ↦ simp off (
        Returns-bind IsUnstamped Pumped (env.parse e.line) _ (unstamped e.line)
          (λ p. scan_parsed-Pumped s e.selects e.now p v tracks))
  ]

  scan_lines-IsSent :
      (s : Scan) (events : List Event) (read_error : Option Str)
      → TrackerIsValid s.tracker
      → has s.tracker ≡ tracking
      → Returns (λ r. All (IsSent tracking) r.1) (scan_lines env s events read_error)
  unfolding scan_lines
  scan_lines-IsSent s [] read_error v tracks = tt
  scan_lines-IsSent s (e ∷ events) read_error v tracks =
      Returns-bind Pumped _ (scan_line env s e) _ (scan_line-Pumped s e v tracks) λ r p.
        elim (Bool-cases r.2) [
          | inl on ↦ simp on (
              Returns-bind (λ rest. All (IsSent tracking) rest.1) _
                (scan_lines env r.0 events read_error) _
                (scan_lines-IsSent r.0 events read_error p.valid p.tracks)
                (λ rest sent. All-append (IsSent tracking) r.1 rest.1 p.sent sent))
          | inr off ↦ simp off p.sent
        ]

-- Whatever lines come and however the selects go, with a parser that neither panics nor stamps a
-- background, the loop does not panic; every message that it sends and that neither starts a session
-- nor ends a turn has an empty stop reason; and a message has a background exactly if work is
-- tracked and the message is a result or a task result.
pub scan_lines-sends :
    (env : Env) (names : List Str) (shell_tracking shell_feed : Bool)
    → ((line : Str) → Returns IsUnstamped (env.parse line))
    → (events : List Event) (read_error : Option Str)
    → let start = start_scan names shell_tracking shell_feed in
      Returns (λ r. All (IsSent (has start.tracker)) r.1) (scan_lines env start events read_error)
unfolding start_scan
scan_lines-sends env names shell_tracking shell_feed unstamped events read_error =
    let start = start_scan names shell_tracking shell_feed in
    scan_lines-IsSent (has start.tracker) env unstamped start events read_error
      (start-TrackerIsValid names (shell_tracking && shell_feed)) refl

abbrev to_list : Option Message → List Message
to_list none = []
to_list (some msg) = msg ∷ []

-- What follows a message on the channel: nothing if the message is a result, an init or an error, or
-- shows no fill; otherwise one context window with the same fill and time.
abbrev pub IsFollowed : Message → List Message → Type 0
IsFollowed msg [] =
    ((is_result msg.type || is_init msg.type || is_error msg.type) ≡ true)
    ⊎ (context_fill msg ≡ none)
IsFollowed msg (window ∷ rest) =
    (rest ≡ [])
    × ((is_result msg.type || is_init msg.type || is_error msg.type) ≡ false)
    × (window.type ≡ context_window)
    × (context_fill window ≡ context_fill msg)
    × (window.timestamp ≡ msg.timestamp)

-- With no cancellation a message is sent first and unchanged, followed by a context window exactly if
-- it shows a fill and is no result, init or error, and the loop goes on.
pub emit_with_synthesis-follows :
    (msg : Message)
    → (windows : List Message) × (emit_with_synthesis sends_both msg ≡ (msg ∷ windows, true))
      × IsFollowed msg windows
unfolding emit_with_synthesis synthesize_context_window window_message send_messages context_fill
emit_with_synthesis-follows msg =
    (to_list (synthesize_context_window msg), ground arith, ground arith)
